-- ===== src/RwLock/Exclusion.antt =====
-- No reader holds the lock of rwlock.hh while a writer has it.
use u_depot.Base.{ℕ, ◌+◌, ◌-◌, ◌%◌, ◌^◌, ◌<◌, ◌≤◌, ◌≡◌, refl, Bool, true, false, arith}
use u_depot.RwLock.{
  bias, Lock, wr_ready, Step, take, refuse, take_back, release, enter, exit, Reachable, start, step,
}

abbrev pub base_of : Bool → ℕ
base_of true = 0
base_of false = bias

-- The word counts the readers and the late ones down from the bias, or from 0 under a writer.
pub record Counts (l : Lock) : Type 0 where
  pub few : l.readers + l.late < bias
  pub counted : l.word ≡ (base_of l.writer + (2 ^ 32 - (l.readers + l.late))) % 2 ^ 32

step-Counts : {l k : Lock} → Step l k → Counts l → Counts k
step-Counts (take l room positive) c = record {
  few = omega (arith, room);
  counted = omega (arith, c.counted, c.few, room);
}
step-Counts (refuse l room shut) c = record {
  few = omega (arith, room);
  counted = omega (arith, c.counted, c.few, room);
}
step-Counts (take_back l some_late) c = record {
  few = omega (arith, c.few);
  counted = omega (arith, c.counted, c.few);
}
step-Counts (release l some_reader) c = record {
  few = omega (arith, c.few);
  counted = omega (arith, c.counted, c.few);
}
step-Counts (enter l no_writer) c = record {
  few = c.few;
  counted = omega (arith, rw no_writer at c.counted, c.few);
}
step-Counts (exit l writer) c = record {
  few = c.few;
  counted = omega (arith, rw writer at c.counted, c.few);
}

pub Reachable-Counts : {l : Lock} → Reachable l → Counts l
Reachable-Counts start = record { few = omega arith; counted = refl }
Reachable-Counts (step r s) = step-Counts s (Reachable-Counts r)

-- In every state that the lock of fewer than 2 ^ 24 threads reaches by atomic steps, when a
-- writer has entered and finds the word ready, no thread holds the lock to read, and none has a
-- late subtraction to take back.
pub wr_ready-alone :
    (l : Lock)
    → Reachable l
    → l.writer ≡ true
    → wr_ready l.word ≡ true
    → (l.readers ≡ 0) × (l.late ≡ 0)
wr_ready-alone l r writer ready =
    let c = Reachable-Counts r in
    let nothing : l.word ≡ 0 = ground (arith, ready) in
    let counted : l.word ≡ (0 + (2 ^ 32 - (l.readers + l.late))) % 2 ^ 32 =
      rw writer at c.counted in
    omega (arith, nothing, counted, c.few)

-- From a state that the lock reaches by atomic steps in which a writer has entered, no step
-- adds a reader.
pub step-readers : {l k : Lock} → Reachable l → Step l k → l.writer ≡ true → k.readers ≤ l.readers
step-readers r (refuse l room shut) writer = omega arith
step-readers r (take_back l some_late) writer = omega arith
step-readers r (release l some_reader) writer = omega arith
step-readers r (enter l no_writer) writer = omega arith
step-readers r (exit l some_writer) writer = omega arith
step-readers r (take l room positive) writer =
    let c = Reachable-Counts r in
    let counted : l.word ≡ (0 + (2 ^ 32 - (l.readers + l.late))) % 2 ^ 32 =
      rw writer at c.counted in
    absurd (ground (arith, counted, c.few, positive))
