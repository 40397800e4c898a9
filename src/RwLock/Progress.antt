-- ===== src/RwLock/Progress.antt =====
-- src/uDepot/rwlock-pagefault.cc: from wherever the lock is, its writer can come to an end and wake the
-- readers.
use u_depot.Base.{ℕ, zero, suc, ◌+◌, ◌-◌, ◌≤◌, ◌≡◌, refl, ap, subst, ◌∙◌, false, arith}
use u_depot.RwLock.{locks_nr}
use u_depot.RwLock.PageFault.{
  Phase, idle, entering, checking, exiting, cleared, PageFaultLock, put_lock, entered, exited, Turn,
  read, sleep, begin, enter_next, begin_check, find_ready, check_again, leave, exit_next, clear,
  wake, Endings, over, ending, turn, here, Used,
}
use u_depot.RwLock.Alone.{IsAwake, Used-IsSound}
use u_depot.RwLock.Drain.{Leads, then_endings, all_endings, write_wait_readers-ends}

abbrev IsWithin : Phase → Type 0
IsWithin (entering k) = k ≤ locks_nr
IsWithin (checking k) = k ≤ locks_nr
IsWithin (exiting k) = k ≤ locks_nr
IsWithin idle = Unit
IsWithin cleared = Unit

Turn-IsWithin : {s t : PageFaultLock} → Turn s t → IsWithin s.phase → IsWithin t.phase
Turn-IsWithin (read s i lt st same) w = w
Turn-IsWithin (sleep s flag) w = w
Turn-IsWithin (begin s e) w = omega arith
Turn-IsWithin (enter_next s k e lt) w = omega (arith, lt)
Turn-IsWithin (begin_check s e) w = omega arith
Turn-IsWithin (find_ready s k e lt ready) w = omega (arith, lt)
Turn-IsWithin (check_again s k e lt busy) w = omega arith
Turn-IsWithin (leave s e) w = omega arith
Turn-IsWithin (exit_next s k e lt) w = omega (arith, lt)
Turn-IsWithin (clear s e) w = tt
Turn-IsWithin (wake s e) w = tt

Used-IsWithin : {s : PageFaultLock} → Used s → IsWithin s.phase
Used-IsWithin here = tt
Used-IsWithin (turn u t) = Turn-IsWithin t (Used-IsWithin u)

pub enter_all :
    (n k : ℕ) (s : PageFaultLock)
    → s.phase ≡ entering k
    → k + n ≡ locks_nr
    → Leads s (λ t. t.phase ≡ entering locks_nr)
enter_all zero k s e left = (s, over, e ∙ ap entering (omega (arith, left)))
enter_all (suc n) k s e left =
    let next : PageFaultLock = record s {
      locks = put_lock s.locks k (entered (s.locks k));
      phase = entering (suc k);
    } in
    let (t, path, ended) = enter_all n (suc k) next refl (omega (arith, left)) in
    (t, then_endings (ending over (enter_next s k e (omega (arith, left))) tt) path, ended)

exit_all :
    (n k : ℕ) (s : PageFaultLock)
    → s.phase ≡ exiting k
    → k + n ≡ locks_nr
    → Leads s (λ t. t.phase ≡ exiting locks_nr)
exit_all zero k s e left = (s, over, e ∙ ap exiting (omega (arith, left)))
exit_all (suc n) k s e left =
    let next : PageFaultLock = record s {
      locks = put_lock s.locks k (exited (s.locks k));
      phase = exiting (suc k);
    } in
    let (t, path, ended) = exit_all n (suc k) next refl (omega (arith, left)) in
    (t, then_endings (ending over (exit_next s k e (omega (arith, left))) tt) path, ended)

-- The writer is in no function and nobody sleeps.
abbrev IsRested : PageFaultLock → Type 0
IsRested t = (t.phase ≡ idle) × (t.waiting ≡ 0)

from_cleared : (s : PageFaultLock) → s.phase ≡ cleared → Leads s IsRested
from_cleared s e = (record s { waiting = 0; phase = idle }, ending over (wake s e) tt, (refl, refl))

from_exiting : (s : PageFaultLock) (k : ℕ) → s.phase ≡ exiting k → k ≤ locks_nr → Leads s IsRested
from_exiting s k e few =
    let (t, path, ended) = exit_all (locks_nr - k) k s e (omega (arith, few)) in
    let next : PageFaultLock = record t { write_in_progress = false; phase = cleared } in
    let (v, path', o) = from_cleared next refl in
    (v, then_endings (ending path (clear t ended) tt) path', o)

from_checking :
    (s : PageFaultLock) (k : ℕ) → Used s → s.phase ≡ checking k → k ≤ locks_nr → Leads s IsRested
from_checking s k u e few =
    let (t, path, ended) = write_wait_readers-ends s k u e few in
    let (v, path', o) = from_exiting (record t { phase = exiting 0 }) 0 refl (omega arith) in
    (v, then_endings (ending path (leave t ended) tt) path', o)

from_entering :
    (s : PageFaultLock) (k : ℕ) → Used s → s.phase ≡ entering k → k ≤ locks_nr → Leads s IsRested
from_entering s k u e few =
    let (t, path, ended) = enter_all (locks_nr - k) k s e (omega (arith, few)) in
    let next = begin_check t ended in
    let (v, path', o) =
      from_checking (record t { phase = checking 0 }) 0 (turn (all_endings u path) next) refl
        (omega arith) in
    (v, then_endings (ending path next tt) path', o)

-- Without a writer nobody sleeps, and there is nothing to do.
from_phase : (s : PageFaultLock) (p : Phase) → Used s → s.phase ≡ p → IsWithin p → Leads s IsRested
from_phase s idle u e w = (s, over, (e, subst (λ p. IsAwake p s.waiting) e (Used-IsSound u).awake))
from_phase s (entering k) u e w = from_entering s k u e w
from_phase s (checking k) u e w = from_checking s k u e w
from_phase s (exiting k) u e w = from_exiting s k e w
from_phase s cleared u e w = from_cleared s e

-- From every state that the lock of the directory reaches, there are steps only of readers that
-- leave and of the writer that is in the lock, with no new reader and no new writer, to a state
-- in which no writer is in the lock and no reader sleeps on its futex.
pub Used-ends :
    (s : PageFaultLock)
    → Used s
    → (t : PageFaultLock) × Endings s t × (t.phase ≡ idle) × (t.waiting ≡ 0)
Used-ends s u =
    let (t, path, o) = from_phase s s.phase u refl (Used-IsWithin u) in (t, path, o.0, o.1)
