-- ===== src/Map/LockCover.antt =====
-- The locks that `lock_common` of udepot-map.hh takes, against the slots that operations touch.
use native.Mathlib.Nat.{div-mul-le_self, lt-div-mul-add, div-eq_of_lt}
use native.Mathlib.Decide.{dec_lt}
use u_depot.Base.{
  ℕ, ◌+◌, ◌-◌, ◌*◌, ◌≤◌, ◌<◌, ◌≡◌, ◌⊎◌, inl, inr, min, Bool-cases, Option, some, leb, leb→le,
  le→leb, arith, sub64, true,
}
use u_depot.HashEntry.{bucket_size}
use u_depot.Map.{Map, hash_to_hb}
use u_depot.Map.Keys.{IsSized, homes_bounds}
use u_depot.Map.Locks.{reach, first_lock, lock_common}

-- Slot `r` is one of those of lock `l`.
abbrev pub Guards : Map → ℕ → ℕ → Type 0
Guards m l r = (l * m.entry_per_lock_nr ≤ r) × (r < (l + 1) * m.entry_per_lock_nr)

-- The slot is guarded by the first lock that is taken, or a second lock is taken that guards it.
abbrev pub IsCovered : Map → ℕ × Option ℕ → ℕ → Type 0
IsCovered m (l, second) r = Guards m l r ⊎ ((second ≡ some (l + 1)) × Guards m (l + 1) r)

first_lock_bounds :
    (m : Map) (first : ℕ)
    → bucket_size ≤ m.entry_per_lock_nr
    → let b = first_lock m first * m.entry_per_lock_nr in
      (b ≤ first - bucket_size) × (first < b + m.entry_per_lock_nr + bucket_size)
first_lock_bounds m first wide =
    let k = m.entry_per_lock_nr in
    elim (Bool-cases (leb bucket_size first)) [
      | inl far ↦
          let x = first - bucket_size in
          let y = lt-div-mul-add {a = x} {b = k} (omega arith) in
          rw far (div-mul-le_self x k, omega (arith, y, leb→le bucket_size first far))
      | inr close ↦
          let small : first < bucket_size = ground arith in
          rw (close, div-eq_of_lt {n = first} {m = k} (omega arith)) (omega arith)
    ]

-- In a table of a power of two of home slots, every slot from a bucket before the home slot to
-- the reach behind it, but for the last bucket and one more slot of the table, is covered by
-- the locks that `lock_common` takes, if a lock guards at least a bucket more than the reach.
pub lock_common-IsCovered :
    (m : Map) (h r : ℕ)
    → IsSized m
    → reach + bucket_size ≤ m.entry_per_lock_nr
    → hash_to_hb m h ≤ r + bucket_size
    → r < hash_to_hb m h + reach
    → r + bucket_size + 1 < m.entry_nr
    → IsCovered m (lock_common m h) r
unfolding lock_common
lock_common-IsCovered m h r s wide lo hi inside =
    let k = m.entry_per_lock_nr in
    let first = hash_to_hb m h in
    let l = first_lock m first in
    let last = min (first + reach) (sub64 (sub64 m.entry_nr bucket_size) 1) in
    let (below, above) = first_lock_bounds m first (omega arith) in
    let e : last ≡ min (first + reach) (m.entry_nr - bucket_size - 1) =
      omega (arith, s.homes, homes_bounds s) in
    elim (dec_lt r ((l + 1) * k)) [
      | yes here ↦ inl (omega (arith, below), here)
      | no past ↦
          let two : leb ((l + 1) * k) last ≡ true = le→leb _ _ (omega (arith, e)) in
          inr (rw two, (omega arith, omega (arith, above)))
    ]
