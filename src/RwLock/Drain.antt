-- ===== src/RwLock/Drain.antt =====
-- src/uDepot/rwlock-pagefault.cc: a writer can always come to an end of its wait, and then every reader can
-- enter.
use u_depot.Base.{
  ℕ, zero, suc, ◌+◌, ◌-◌, ◌%◌, ◌^◌, ◌<◌, ◌≤◌, ◌≡◌, refl, sym, ap, subst, ◌∙◌, true, false, ◌==◌,
  arith,
}
use u_depot.RwLock.{
  bias, Lock, take_back, release, Reachable, step, wr_ready, is_positive, fetch_add, rd_unlock,
  locks_nr, rd_try_lock,
}
use u_depot.RwLock.Exclusion.{Reachable-Counts}
use u_depot.RwLock.PageFault.{
  idle, checking, PageFaultLock, put_lock, read, find_ready, Endings, over, ending, turn, Used,
}
use u_depot.RwLock.Alone.{IsAwake, Used-IsSound}

-- A word that a writer has entered is ready when it has no readers and no late ones.
ready_when_empty :
    (l : Lock) → Reachable l → l.writer ≡ true → l.readers ≡ 0 → l.late ≡ 0 → wr_ready l.word ≡ true
ready_when_empty l r w none_reads none_late =
    let c = Reachable-Counts r in
    let counted : l.word ≡ (0 + (2 ^ 32 - (l.readers + l.late))) % 2 ^ 32 = rw w at c.counted in
    ground (arith, counted, none_reads, none_late)

-- From `s` there are turns to `t`.
abbrev pub Leads : PageFaultLock → (PageFaultLock → Type 0) → Type 0
Leads s P = (t : PageFaultLock) × Endings s t × P t

pub then_endings : {s t u : PageFaultLock} → Endings s t → Endings t u → Endings s u
then_endings a over = a
then_endings a (ending b x e) = ending (then_endings a b) x e

-- What stays while the threads of a word leave it.
record Emptied (s : PageFaultLock) (i : ℕ) (t : PageFaultLock) : Type 0 where
  same_phase : t.phase ≡ s.phase
  ready : wr_ready (t.locks i).word ≡ true

put_lock_self : (locks : ℕ → Lock) (i : ℕ) (l : Lock) → put_lock locks i l i ≡ l
put_lock_self locks i l = let e : (i == i) ≡ true = ground arith in rw e refl

module _ (i : ℕ) (lt : i < locks_nr) where
  drain_late :
      (n : ℕ) (s : PageFaultLock)
      → (s.locks i).late ≡ n
      → (s.locks i).readers ≡ 0
      → (s.locks i).writer ≡ true
      → Reachable (s.locks i)
      → Leads s (Emptied s i)
  drain_late zero s late none_reads w r = (
    s,
    over,
    record { same_phase = refl; ready = ready_when_empty (s.locks i) r w none_reads late },
  )
  drain_late (suc n) s late none_reads w r =
      let l : Lock = s.locks i in
      let st = take_back l (omega (arith, late)) in
      let k : Lock = record l { word = fetch_add l.word 1; late = l.late - 1 } in
      let s' : PageFaultLock = record s { locks = put_lock s.locks i k } in
      let e : s'.locks i ≡ k = put_lock_self s.locks i k in
      let (t, path, o) =
        drain_late n s' (ap (λ (x : Lock). x.late) e ∙ omega (arith, late))
          (ap (λ (x : Lock). x.readers) e ∙ none_reads) (ap (λ (x : Lock). x.writer) e ∙ w)
          (subst Reachable (sym e) (step r st)) in
      (
        t,
        then_endings (ending over (read s i lt st refl) tt) path,
        record { same_phase = o.same_phase; ready = o.ready },
      )

  drain_readers :
      (n : ℕ) (s : PageFaultLock)
      → (s.locks i).readers ≡ n
      → (s.locks i).writer ≡ true
      → Reachable (s.locks i)
      → Leads s (Emptied s i)
  drain_readers zero s reads w r = drain_late (s.locks i).late s refl reads w r
  drain_readers (suc n) s reads w r =
      let l : Lock = s.locks i in
      let st = release l (omega (arith, reads)) in
      let k : Lock = record l { word = rd_unlock l.word; readers = l.readers - 1 } in
      let s' : PageFaultLock = record s { locks = put_lock s.locks i k } in
      let e : s'.locks i ≡ k = put_lock_self s.locks i k in
      let (t, path, o) =
        drain_readers n s' (ap (λ (x : Lock). x.readers) e ∙ omega (arith, reads))
          (ap (λ (x : Lock). x.writer) e ∙ w) (subst Reachable (sym e) (step r st)) in
      (
        t,
        then_endings (ending over (read s i lt st refl) tt) path,
        record { same_phase = o.same_phase; ready = o.ready },
      )

pub all_endings : {s t : PageFaultLock} → Used s → Endings s t → Used t
all_endings u over = u
all_endings u (ending path x e) = turn (all_endings u path) x

-- `n` words are left to check.
finish_check :
    (n k : ℕ) (s : PageFaultLock)
    → Used s
    → s.phase ≡ checking k
    → k + n ≡ locks_nr
    → Leads s (λ t. t.phase ≡ checking locks_nr)
finish_check zero k s u e left = (s, over, e ∙ ap checking (omega (arith, left)))
finish_check (suc n) k s u e left =
    let lt : k < locks_nr = omega (arith, left) in
    let o = Used-IsSound u in
    let (t, path, q) =
      drain_readers k lt (s.locks k).readers s refl (o.written k lt ∙ rw e refl) (o.reached k lt) in
    let found = find_ready t k (q.same_phase ∙ e) lt q.ready in
    let t' : PageFaultLock = record t { phase = checking (suc k) } in
    let (v, path', ended) =
      finish_check n (suc k) t' (turn (all_endings u path) found) refl (omega (arith, left)) in
    (v, then_endings (ending path found tt) path', ended)

pub write_wait_readers-ends :
    (s : PageFaultLock) (k : ℕ)
    → Used s
    → s.phase ≡ checking k
    → k ≤ locks_nr
    → (t : PageFaultLock) × Endings s t × (t.phase ≡ checking locks_nr)
write_wait_readers-ends s k u e few = finish_check (locks_nr - k) k s u e (omega (arith, few))

rd_try_lock-positive : (w : ℕ) → 0 < w → w < 2 ^ 31 → (rd_try_lock w).0 ≡ true
unfolding rd_try_lock
rd_try_lock-positive w pos small =
    let some_bias : (w == 0) ≡ false = ground arith in
    let positive : is_positive w ≡ true = ground arith in rw (rd_try_lock, some_bias, positive) refl

-- In every state that the lock of the directory reaches in which no writer is in its functions,
-- no reader sleeps, and `rd_try_lock` on the word of a group of fewer than 2 ^ 24 threads
-- succeeds.
pub idle-rd_try_lock :
    (s : PageFaultLock) (i : ℕ)
    → Used s
    → s.phase ≡ idle
    → i < locks_nr
    → (s.locks i).readers + (s.locks i).late + 1 < bias
    → (s.waiting ≡ 0) × ((rd_try_lock (s.locks i).word).0 ≡ true)
idle-rd_try_lock s i u e lt few =
    let o = Used-IsSound u in
    let l : Lock = s.locks i in
    let c = Reachable-Counts (o.reached i lt) in
    let no_writer : l.writer ≡ false = o.written i lt ∙ rw e refl in
    let counted : l.word ≡ (bias + (2 ^ 32 - (l.readers + l.late))) % 2 ^ 32 =
      rw no_writer at c.counted in
    (
      subst (λ p. IsAwake p s.waiting) e o.awake,
      rd_try_lock-positive l.word (omega (arith, counted, few)) (omega (arith, counted, few)),
    )
