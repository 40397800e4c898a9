-- ===== src/RwLock/PageFault.antt =====
-- src/include/uDepot/rwlock-pagefault.hh, src/uDepot/rwlock-pagefault.cc and src/include/uDepot/brlock.hh: the
-- lock of the directory, with a word for each group of threads, a flag and a futex. The writer's loops
-- over the words interleave with the readers, word by word. There is one writer at a time, since
-- `grow` holds a mutex.
use u_depot.Base.{ℕ, suc, ◌+◌, ◌<◌, ◌≡◌, Bool, true, false, ◌==◌, if◌then◌else◌}
use u_depot.RwLock.{
  Lock, Step, take, refuse, take_back, release, enter, exit, new_lock, wr_enter, wr_exit, wr_ready,
  locks_nr,
}

-- Where the writer is: in none of the functions; in `wr_enter`, with the words that it has entered; in
-- `wr_ready`, with the words that this round has found ready; in `wr_exit`, with the words that
-- it has left; or in `write_exit` behind it, before the sleepers are woken.
pub data Phase : Type 0 where
  idle : Phase
  entering : ℕ → Phase
  checking : ℕ → Phase
  exiting : ℕ → Phase
  cleared : Phase

-- rwlock_pagefault: the words of the BRLock, with their threads, where a word of no group is never
-- used; `write_in_progress_`; and how many readers sleep on it.
pub record PageFaultLock : Type 0 where
  pub locks : ℕ → Lock
  pub phase : Phase
  pub write_in_progress : Bool
  pub waiting : ℕ

abbrev pub new_page_fault_lock : PageFaultLock
new_page_fault_lock = record {
  locks = λ i. new_lock;
  phase = idle;
  write_in_progress = false;
  waiting = 0;
}

abbrev pub put_lock : (ℕ → Lock) → ℕ → Lock → ℕ → Lock
put_lock locks i l j = if j == i then l else locks j

abbrev pub entered : Lock → Lock
entered l = record l { word = wr_enter l.word; writer = true }

abbrev pub exited : Lock → Lock
exited l = record l { word = wr_exit l.word; writer = false }

pub data Turn : PageFaultLock → PageFaultLock → Type 0 where
  -- a step of a reader on the word of its group
  read :
      (s : PageFaultLock) (i : ℕ) {l : Lock}
      → i < locks_nr
      → Step (s.locks i) l
      → l.writer ≡ (s.locks i).writer
      → Turn s (record s { locks = put_lock s.locks i l })
  -- reader_wait_for_writer: the futex lets a thread sleep while the flag is set
  sleep :
      (s : PageFaultLock)
      → s.write_in_progress ≡ true
      → Turn s (record s { waiting = s.waiting + 1 })
  -- wr_enter
  begin :
      (s : PageFaultLock)
      → s.phase ≡ idle
      → Turn s (record s { write_in_progress = true; phase = entering 0 })
  enter_next :
      (s : PageFaultLock) (k : ℕ)
      → s.phase ≡ entering k
      → k < locks_nr
      → Turn s
          (record s { locks = put_lock s.locks k (entered (s.locks k)); phase = entering (suc k) })
  -- write_wait_readers and wr_ready
  begin_check :
      (s : PageFaultLock) → s.phase ≡ entering locks_nr → Turn s (record s { phase = checking 0 })
  find_ready :
      (s : PageFaultLock) (k : ℕ)
      → s.phase ≡ checking k
      → k < locks_nr
      → wr_ready (s.locks k).word ≡ true
      → Turn s (record s { phase = checking (suc k) })
  check_again :
      (s : PageFaultLock) (k : ℕ)
      → s.phase ≡ checking k
      → k < locks_nr
      → wr_ready (s.locks k).word ≡ false
      → Turn s (record s { phase = checking 0 })
  -- wr_exit
  leave :
      (s : PageFaultLock) → s.phase ≡ checking locks_nr → Turn s (record s { phase = exiting 0 })
  exit_next :
      (s : PageFaultLock) (k : ℕ)
      → s.phase ≡ exiting k
      → k < locks_nr
      → Turn s
          (record s { locks = put_lock s.locks k (exited (s.locks k)); phase = exiting (suc k) })
  clear :
      (s : PageFaultLock)
      → s.phase ≡ exiting locks_nr
      → Turn s (record s { write_in_progress = false; phase = cleared })
  -- write_exit wakes all
  wake : (s : PageFaultLock) → s.phase ≡ cleared → Turn s (record s { waiting = 0; phase = idle })

pub data Turns (s : PageFaultLock) : PageFaultLock → Type 0 where
  here : Turns s s
  turn : {t u : PageFaultLock} → Turns s t → Turn t u → Turns s u

-- A reader that leaves a word, after a read or after a lock that it did not get.
abbrev pub IsLeaving : {l k : Lock} → Step l k → Type 0
IsLeaving (take l few positive) = ⊥
IsLeaving (refuse l few busy) = ⊥
IsLeaving (take_back l some_late) = Unit
IsLeaving (release l some_reads) = Unit
IsLeaving (enter l free) = ⊥
IsLeaving (exit l held) = ⊥

-- A step of what is going on already: no reader comes or falls asleep, and no writer begins.
abbrev pub IsEnding : {s t : PageFaultLock} → Turn s t → Type 0
IsEnding (read s i lt st same) = IsLeaving st
IsEnding (sleep s flag) = ⊥
IsEnding (begin s e) = ⊥
IsEnding (enter_next s k e lt) = Unit
IsEnding (begin_check s e) = Unit
IsEnding (find_ready s k e lt ready) = Unit
IsEnding (check_again s k e lt busy) = Unit
IsEnding (leave s e) = Unit
IsEnding (exit_next s k e lt) = Unit
IsEnding (clear s e) = Unit
IsEnding (wake s e) = Unit

pub data Endings (s : PageFaultLock) : PageFaultLock → Type 0 where
  over : Endings s s
  ending : {t u : PageFaultLock} → Endings s t → (x : Turn t u) → IsEnding x → Endings s u

abbrev pub Used : PageFaultLock → Type 0
Used s = Turns new_page_fault_lock s
