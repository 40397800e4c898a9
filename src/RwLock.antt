-- ===== src/RwLock.antt =====
-- src/include/uDepot/rwlock.hh and src/include/uDepot/brlock.hh: a lock of readers and a writer in one
-- atomic s32, and the lock that has one such word for each group of threads.
pub mod Exclusion
pub mod PageFault
pub mod Alone
pub mod Drain
pub mod Progress
mod PageFaultTests
use u_depot.Base.{
  ℕ, zero, suc, ◌+◌, ◌-◌, ◌%◌, ◌^◌, ◌<◌, ◌≡◌, Bool, true, false, not, ◌&&◌, List, [], ◌∷◌, ltb,
  ◌==◌, set, get_or, if◌then◌else◌, map, replicate,
}

-- RWLOCK_BIAS
abbrev pub bias : ℕ
bias = 2 ^ 24

-- The s32 as its bits.
abbrev pub fetch_sub : ℕ → ℕ → ℕ
fetch_sub word n = (word + (2 ^ 32 - n)) % 2 ^ 32

abbrev pub fetch_add : ℕ → ℕ → ℕ
fetch_add word n = (word + n) % 2 ^ 32

abbrev pub is_positive : ℕ → Bool
is_positive word = ltb 0 word && ltb word (2 ^ 31)

-- `rd_try_lock`, when no other thread comes between its steps: the result and the word
unfoldable pub rd_try_lock : ℕ → Bool × ℕ
rd_try_lock word =
    if word == 0
    then (false, word)
    else if is_positive word
    then (true, fetch_sub word 1)
    else (false, fetch_add (fetch_sub word 1) 1)

abbrev pub rd_unlock : ℕ → ℕ
rd_unlock word = fetch_add word 1

abbrev pub wr_enter : ℕ → ℕ
wr_enter word = fetch_sub word bias

abbrev pub wr_ready : ℕ → Bool
wr_ready word = word == 0

abbrev pub wr_exit : ℕ → ℕ
wr_exit word = fetch_add word bias

-- The lock with the threads that use it: those that hold it to read, those that are to take back
-- the subtraction that came too late, and whether a writer has entered.
pub record Lock : Type 0 where
  pub word : ℕ
  pub readers : ℕ
  pub late : ℕ
  pub writer : Bool

abbrev pub new_lock : Lock
new_lock = record { word = bias; readers = 0; late = 0; writer = false }

-- The atomic steps, of fewer than `bias` threads. A reader's subtraction finds a positive word, and
-- has the lock, or another, and is taken back by a step of its own. The test for 0 before it changes
-- nothing, and has no step.
pub data Step : Lock → Lock → Type 0 where
  take :
      (l : Lock)
      → l.readers + l.late + 1 < bias
      → is_positive l.word ≡ true
      → Step l (record l { word = fetch_sub l.word 1; readers = l.readers + 1 })
  refuse :
      (l : Lock)
      → l.readers + l.late + 1 < bias
      → is_positive l.word ≡ false
      → Step l (record l { word = fetch_sub l.word 1; late = l.late + 1 })
  take_back :
      (l : Lock) → 0 < l.late → Step l (record l { word = fetch_add l.word 1; late = l.late - 1 })
  release :
      (l : Lock)
      → 0 < l.readers
      → Step l (record l { word = rd_unlock l.word; readers = l.readers - 1 })
  enter :
      (l : Lock) → l.writer ≡ false → Step l (record l { word = wr_enter l.word; writer = true })
  exit : (l : Lock) → l.writer ≡ true → Step l (record l { word = wr_exit l.word; writer = false })

pub data Reachable : Lock → Type 0 where
  start : Reachable new_lock
  step : {l k : Lock} → Reachable l → Step l k → Reachable k

-- brlock.hh, LOCKS_NR
abbrev pub locks_nr : ℕ
locks_nr = 128

abbrev pub new_locks : List ℕ
new_locks = replicate locks_nr bias

unfoldable pub br_rd_try_lock : ℕ → List ℕ → Bool × List ℕ
br_rd_try_lock tid locks =
    let (ok, word) = rd_try_lock (get_or locks (tid % locks_nr) 0) in
    (ok, set locks (tid % locks_nr) word)

unfoldable pub br_rd_unlock : ℕ → List ℕ → List ℕ
br_rd_unlock tid locks = set locks (tid % locks_nr) (rd_unlock (get_or locks (tid % locks_nr) 0))

-- the loops over all the words
unfoldable pub br_wr_enter : List ℕ → List ℕ
br_wr_enter [] = []
br_wr_enter (word ∷ locks) = wr_enter word ∷ br_wr_enter locks

unfoldable pub br_wr_ready : List ℕ → Bool
br_wr_ready [] = true
br_wr_ready (word ∷ locks) =
    let rest = br_wr_ready locks in if not (wr_ready word) then false else rest

unfoldable pub br_wr_exit : List ℕ → List ℕ
br_wr_exit [] = []
br_wr_exit (word ∷ locks) = wr_exit word ∷ br_wr_exit locks
