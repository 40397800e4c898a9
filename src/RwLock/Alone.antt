-- ===== src/RwLock/Alone.antt =====
-- src/uDepot/rwlock-pagefault.cc: a writer that has found all the words ready is alone, and no reader is
-- left asleep.
use u_depot.Base.{
  ℕ, suc, ◌+◌, ◌<◌, ◌≡◌, refl, sym, ap, subst, ◌∙◌, Bool, true, false, not, Bool-cases, ltb, ◌==◌,
  inl, inr, arith,
}
use u_depot.RwLock.{Lock, Step, Reachable, wr_ready, locks_nr, enter, exit, start, step}
use u_depot.RwLock.Exclusion.{wr_ready-alone, step-readers}
use u_depot.RwLock.PageFault.{
  Phase, idle, entering, checking, exiting, cleared, PageFaultLock, put_lock, entered, exited, Turn,
  read, sleep, begin, enter_next, begin_check, find_ready, check_again, leave, exit_next, clear,
  wake, here, turn, Used,
}

-- Which words the writer has entered, and which it has found ready.
abbrev pub is_entered : Phase → ℕ → Bool
is_entered idle i = false
is_entered (entering k) i = ltb i k
is_entered (checking k) i = true
is_entered (exiting k) i = not (ltb i k)
is_entered cleared i = false

abbrev pub is_checked : Phase → ℕ → Bool
is_checked (checking k) i = ltb i k
is_checked phase i = false

abbrev pub is_flagged : Phase → Bool
is_flagged idle = false
is_flagged cleared = false
is_flagged phase = true

-- The writer is not in a function, and nobody sleeps.
abbrev pub IsAwake : Phase → ℕ → Type 0
IsAwake idle waiting = waiting ≡ 0
IsAwake phase waiting = Unit

pub record IsSound (s : PageFaultLock) : Type 0 where
  pub reached : (i : ℕ) → i < locks_nr → Reachable (s.locks i)
  pub written : (i : ℕ) → i < locks_nr → (s.locks i).writer ≡ is_entered s.phase i
  pub quiet : (i : ℕ) → i < locks_nr → is_checked s.phase i ≡ true → (s.locks i).readers ≡ 0
  pub flagged : s.write_in_progress ≡ is_flagged s.phase
  pub awake : IsAwake s.phase s.waiting

same_index : (j i : ℕ) → (j == i) ≡ true → j ≡ i
same_index j i e = ground (arith, e)

-- A property of the words is one of the changed word and of the others.
put_lock-case :
    (P : ℕ → Lock → Type 0) (locks : ℕ → Lock) (i : ℕ) (l : Lock) (j : ℕ)
    → P i l
    → ((j == i) ≡ false → P j (locks j))
    → P j (put_lock locks i l j)
put_lock-case P locks i l j pi pj = elim (Bool-cases (j == i)) [
  | inl same ↦ rw same (subst (λ k. P k l) (sym (same_index j i same)) pi)
  | inr other ↦ rw other (pj other)
]

checked-entered : (p : Phase) (i : ℕ) → is_checked p i ≡ true → is_entered p i ≡ true
checked-entered idle i e = cc
checked-entered (entering k) i e = cc
checked-entered (checking k) i e = refl
checked-entered (exiting k) i e = cc
checked-entered cleared i e = cc

asleep : (p : Phase) (w : ℕ) → true ≡ is_flagged p → IsAwake p (w + 1)
asleep idle w e = absurd (cc e)
asleep (entering k) w e = tt
asleep (checking k) w e = tt
asleep (exiting k) w e = tt
asleep cleared w e = tt

-- The soundness of the words alone.
record AreSound (locks : ℕ → Lock) (p : Phase) : Type 0 where
  reached : (i : ℕ) → i < locks_nr → Reachable (locks i)
  written : (i : ℕ) → i < locks_nr → (locks i).writer ≡ is_entered p i
  quiet : (i : ℕ) → i < locks_nr → is_checked p i ≡ true → (locks i).readers ≡ 0

words : (s : PageFaultLock) (p : Phase) → IsSound s → s.phase ≡ p → AreSound s.locks p
words s p o e = record {
  reached = o.reached;
  written = λ i lt. o.written i lt ∙ ap (λ q. is_entered q i) e;
  quiet = λ i lt c. o.quiet i lt (ap (λ q. is_checked q i) e ∙ c);
}

read-AreSound :
    (locks : ℕ → Lock) (p : Phase) (i : ℕ) (l : Lock)
    → i < locks_nr
    → Step (locks i) l
    → l.writer ≡ (locks i).writer
    → AreSound locks p
    → AreSound (put_lock locks i l) p
read-AreSound locks p i l lt st same o = record {
  reached = λ j jt.
      put_lock-case (λ j k. Reachable k) locks i l j (step (o.reached i lt) st)
        (λ ne. o.reached j jt);
  written = λ j jt.
      put_lock-case (λ j k. k.writer ≡ is_entered p j) locks i l j (same ∙ o.written i lt)
        (λ ne. o.written j jt);
  quiet = λ j jt.
      put_lock-case (λ j k. is_checked p j ≡ true → k.readers ≡ 0) locks i l j
        (λ c.
          let fewer = step-readers (o.reached i lt) st (o.written i lt ∙ checked-entered p i c) in
          omega (arith, fewer, o.quiet i lt c))
        (λ ne. o.quiet j jt);
}

enter-AreSound :
    (locks : ℕ → Lock) (k : ℕ)
    → k < locks_nr
    → AreSound locks (entering k)
    → AreSound (put_lock locks k (entered (locks k))) (entering (suc k))
enter-AreSound locks k lt o = record {
  reached = λ j jt.
      put_lock-case (λ j l. Reachable l) locks k (entered (locks k)) j
        (step (o.reached k lt) (enter (locks k) (o.written k lt ∙ ground arith)))
        (λ ne. o.reached j jt);
  written = λ j jt.
      put_lock-case (λ j l. l.writer ≡ ltb j (suc k)) locks k (entered (locks k)) j (ground arith)
        (λ ne. o.written j jt ∙ ground (arith, ne));
  quiet = λ j jt c. absurd (cc c);
}

exit-AreSound :
    (locks : ℕ → Lock) (k : ℕ)
    → k < locks_nr
    → AreSound locks (exiting k)
    → AreSound (put_lock locks k (exited (locks k))) (exiting (suc k))
exit-AreSound locks k lt o = record {
  reached = λ j jt.
      put_lock-case (λ j l. Reachable l) locks k (exited (locks k)) j
        (step (o.reached k lt) (exit (locks k) (o.written k lt ∙ ground arith)))
        (λ ne. o.reached j jt);
  written = λ j jt.
      put_lock-case (λ j l. l.writer ≡ not (ltb j (suc k))) locks k (exited (locks k)) j
        (ground arith) (λ ne. o.written j jt ∙ ground (arith, ne));
  quiet = λ j jt c. absurd (cc c);
}

find-AreSound :
    (locks : ℕ → Lock) (k : ℕ)
    → k < locks_nr
    → wr_ready (locks k).word ≡ true
    → AreSound locks (checking k)
    → AreSound locks (checking (suc k))
find-AreSound locks k lt ready o = record {
  reached = o.reached;
  written = o.written;
  quiet = λ j jt c. elim (Bool-cases (j == k)) [
    | inl same ↦
        let e = same_index j k same in
        subst (λ i. (locks i).readers ≡ 0) (sym e)
          (wr_ready-alone (locks k) (o.reached k lt) (o.written k lt) ready).0
    | inr other ↦ o.quiet j jt (ground (arith, c, other))
  ];
}

abbrev sound :
    {locks : ℕ → Lock} {p : Phase} {flag : Bool} {w : ℕ}
    → AreSound locks p
    → flag ≡ is_flagged p
    → IsAwake p w
    → IsSound (record { locks = locks; phase = p; write_in_progress = flag; waiting = w })
sound o flag awake = record {
  reached = o.reached;
  written = o.written;
  quiet = o.quiet;
  flagged = flag;
  awake = awake;
}

-- another phase, when the same words are entered and none is checked any more
retold :
    (locks : ℕ → Lock) (p q : Phase)
    → ((i : ℕ) → i < locks_nr → is_entered p i ≡ is_entered q i)
    → ((i : ℕ) → is_checked q i ≡ false)
    → AreSound locks p
    → AreSound locks q
retold locks p q same none_checked o = record {
  reached = o.reached;
  written = λ i lt. o.written i lt ∙ same i lt;
  quiet = λ i lt c. absurd (cc (none_checked i, c));
}

turn-IsSound : {s t : PageFaultLock} → Turn s t → IsSound s → IsSound t
turn-IsSound (read s i {l} lt st same) o =
    sound (read-AreSound s.locks s.phase i l lt st same (words s s.phase o refl)) o.flagged o.awake
turn-IsSound (sleep s flag) o =
    sound (words s s.phase o refl) o.flagged (asleep s.phase s.waiting (sym flag ∙ o.flagged))
turn-IsSound (begin s e) o =
    sound (retold s.locks idle (entering 0) (λ i lt. ground arith) (λ i. refl) (words s idle o e))
      refl tt
turn-IsSound (enter_next s k e lt) o =
    sound (enter-AreSound s.locks k lt (words s (entering k) o e)) (o.flagged ∙ ap is_flagged e) tt
turn-IsSound (begin_check s e) o =
    sound
      (retold s.locks (entering locks_nr) (checking 0) (λ i lt. ground (arith, lt))
        (λ i. ground arith) (words s (entering locks_nr) o e))
      (o.flagged ∙ ap is_flagged e) tt
turn-IsSound (find_ready s k e lt ready) o =
    sound (find-AreSound s.locks k lt ready (words s (checking k) o e))
      (o.flagged ∙ ap is_flagged e) tt
turn-IsSound (check_again s k e lt busy) o =
    sound
      (retold s.locks (checking k) (checking 0) (λ i lt. refl) (λ i. ground arith)
        (words s (checking k) o e))
      (o.flagged ∙ ap is_flagged e) tt
turn-IsSound (leave s e) o =
    sound
      (retold s.locks (checking locks_nr) (exiting 0) (λ i lt. ground arith) (λ i. refl)
        (words s (checking locks_nr) o e))
      (o.flagged ∙ ap is_flagged e) tt
turn-IsSound (exit_next s k e lt) o =
    sound (exit-AreSound s.locks k lt (words s (exiting k) o e)) (o.flagged ∙ ap is_flagged e) tt
turn-IsSound (clear s e) o =
    sound
      (retold s.locks (exiting locks_nr) cleared (λ i lt. ground (arith, lt)) (λ i. refl)
        (words s (exiting locks_nr) o e))
      refl tt
turn-IsSound (wake s e) o =
    sound (retold s.locks cleared idle (λ i lt. refl) (λ i. refl) (words s cleared o e))
      (o.flagged ∙ ap is_flagged e) refl

pub Used-IsSound : {s : PageFaultLock} → Used s → IsSound s
Used-IsSound here = record {
  reached = λ i lt. start;
  written = λ i lt. refl;
  quiet = λ i lt c. refl;
  flagged = refl;
  awake = refl;
}
Used-IsSound (turn u t) = turn-IsSound t (Used-IsSound u)

-- In every state that the lock of the directory reaches, by steps of its readers on the word of
-- their group and of its one writer that goes through the words one by one, when the writer has
-- found all the words ready, no reader holds any of them.
pub checked-alone :
    (s : PageFaultLock) (i : ℕ)
    → Used s
    → s.phase ≡ checking locks_nr
    → i < locks_nr
    → ((s.locks i).readers ≡ 0) × ((s.locks i).writer ≡ true)
checked-alone s i u e lt =
    let o = words s (checking locks_nr) (Used-IsSound u) e in
    (o.quiet i lt (ground (arith, lt)), o.written i lt)
