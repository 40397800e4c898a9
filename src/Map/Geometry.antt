-- ===== src/Map/Geometry.antt =====
-- `restore` and `init` of udepot-map.cc: the sizes that they set.
use native.Mathlib.Nat.{pow-suc, mod-eq_of_lt, one-le-pow, pow-le-pow_right}
use native.Mathlib.Decide.{dec_le}
use u_depot.Base.{
  ℕ, zero, suc, ◌+◌, ◌-◌, ◌*◌, ◌/◌, ◌^◌, ◌≤◌, ◌<◌, ◌≡◌, ◌⊎◌, inl, inr, refl, sym, ap, ◌∙◌,
  Bool-cases, some, List, length, ltb, leb, ◌==◌, false, arith, sub64, bit_and-mask,
}
use u_depot.HashEntry.{HashEntry, bucket_size}
use u_depot.Map.{Map, hash_to_hb}
use u_depot.Map.Keys.{IsSized}
use u_depot.Map.Locks.{reach}
use u_depot.Map.Restore.{ready, set_sizes, lock_loop, restore_entries, restore, entry_size}
use u_depot.Util.{num_bits, udiv_round_up, align_down, round_down_pow2}
use u_depot.Util.Rounding.{
  num_bits-mask, round_down_pow2_lem, round_down_pow2-zero, udiv_round_up_lem,
}

-- One lock guards the whole table, or each guards at least the reach of an operation and all of
-- them together guard the table.
abbrev pub SplitsLocks : ℕ → ℕ → ℕ → Type 0
SplitsLocks entry_nr locks per_lock =
    ((locks ≡ 1) × (per_lock ≡ entry_nr)) ⊎ ((reach ≤ per_lock) × (entry_nr ≤ per_lock * locks))

-- The halving of the number of locks ends, for any number of locks but 0.
lock_loop_lem :
    (fuel n l : ℕ)
    → 0 < l
    → l < 2 ^ fuel
    → n + l < 2 ^ 64
    → (locks : ℕ) × (per : ℕ) × (lock_loop fuel n l ≡ some (locks, per)) × SplitsLocks n locks per
unfolding lock_loop
lock_loop_lem zero n l pos lt fits = absurd (omega arith)
lock_loop_lem (suc fuel) n l pos lt fits = elim (Bool-cases (l == 1)) [
  | inl one ↦ (l, n, rw one, inl (ground arith, refl))
  | inr more ↦ elim (Bool-cases (leb reach (udiv_round_up n l))) [
    | inl wide ↦ (
      l,
      udiv_round_up n l,
      rw (more, wide),
      inr (ground arith, (udiv_round_up_lem n l pos fits).0),
    )
    | inr narrow ↦
        let (locks, per, run, split) =
          lock_loop_lem fuel n (l / 2) (ground arith) (omega (arith, pow-suc 2 fuel))
            (omega arith) in
        (locks, per, rw (more, narrow) run, split)
  ]
]

positive : (n : ℕ) → 0 < n → (n == 0) ≡ false
positive n h = ground arith

not_below : (n k : ℕ) → k ≤ n → ltb n k ≡ false
not_below n k h = ground arith

restore_entries-run :
    (m : Map) (lock_nr entry_nr : ℕ) (words : List HashEntry) (locks : ℕ × ℕ)
    → lock_loop 33 entry_nr lock_nr ≡ some locks
    → restore_entries m lock_nr entry_nr words ≡ ready (set_sizes m entry_nr words locks)
unfolding restore_entries
restore_entries-run m lock_nr entry_nr words locks loop = rw (loop, restore_entries)

restore-run :
    (m : Map) (lock_nr size : ℕ) (words : List HashEntry)
    → entry_size * bucket_size ≤ size
    → restore m lock_nr size (some words)
      ≡ restore_entries m lock_nr
          (round_down_pow2 (size / entry_size - bucket_size) + bucket_size)
          words
unfolding restore align_down
restore-run m lock_nr size words big =
    let n : ℕ = size / entry_size in
    let aligned : n * entry_size / entry_size ≡ n = omega arith in
    let t₁ : (n * entry_size == 0) ≡ false = positive _ (omega arith) in
    let t₂ : ltb n bucket_size ≡ false = not_below n bucket_size (omega arith) in
    rw (aligned, t₁, t₂)

-- The fields that `restore` sets for 2 ^ j home slots.
restore_entries_lem :
    (m : Map) (lock_nr j : ℕ) (words : List HashEntry)
    → j ≤ 32
    → 2 ^ j + bucket_size ≤ length words
    → 0 < lock_nr
    → lock_nr < 2 ^ 32
    → (m' : Map) × (restore_entries m lock_nr (2 ^ j + bucket_size) words ≡ ready m')
      × IsSized m'
      × (m'.entry_nr ≡ 2 ^ j + bucket_size)
      × SplitsLocks m'.entry_nr m'.lock_nr m'.entry_per_lock_nr
restore_entries_lem m lock_nr j words at_most held pos few =
    let high : 2 ^ j ≤ 2 ^ 32 = pow-le-pow_right (omega arith) at_most in
    let low : 1 ≤ 2 ^ j = one-le-pow j 2 (omega arith) in
    let (locks, per, loop, split) =
      lock_loop_lem 33 (2 ^ j + bucket_size) lock_nr pos (omega arith) (omega arith) in
    let mask : sub64 (sub64 (2 ^ j + bucket_size) bucket_size) 1 ≡ 2 ^ j - 1 = omega arith in
    let bits : num_bits (sub64 (sub64 (2 ^ j + bucket_size) bucket_size) 1) ≡ j =
      ap num_bits mask ∙ num_bits-mask j (omega arith) in
    (
      set_sizes m (2 ^ j + bucket_size) words (locks, per),
      restore_entries-run m lock_nr _ words (locks, per) loop,
      record {
        homes = ap (λ (t : ℕ). 2 ^ t + bucket_size) (sym bits);
        few = rw bits at_most;
        width = held;
      },
      refl,
      split,
    )

abbrev IsRestored : Map → ℕ → ℕ → List HashEntry → Type 0
IsRestored m lock_nr size words =
    (m' : Map) × (restore m lock_nr size (some words) ≡ ready m')
    × IsSized m'
    × (size < entry_size * (2 * m'.entry_nr))
    × SplitsLocks m'.entry_nr m'.lock_nr m'.entry_per_lock_nr

restore_rounded :
    (m : Map) (lock_nr size : ℕ) (words : List HashEntry) (j : ℕ)
    → entry_size * (bucket_size + 1) ≤ size
    → size < 2 ^ 36
    → size ≤ entry_size * length words
    → 0 < lock_nr
    → lock_nr < 2 ^ 32
    → round_down_pow2 (size / entry_size - bucket_size) ≡ 2 ^ j
    → 2 ^ j ≤ size / entry_size - bucket_size
    → size / entry_size - bucket_size < 2 ^ suc j
    → IsRestored m lock_nr size words
restore_rounded m lock_nr size words j big small held pos few run lo hi =
    let n : ℕ = size / entry_size in
    let at_most : j ≤ 32 = elim (dec_le j 32) [
      | yes le ↦ le
      | no gt ↦
          absurd
            (omega (arith, pow-le-pow_right {n = 2} (omega arith) {i = 33} {j = j} (omega arith)))
    ] in
    let (m', done, sized, entries, split) =
      restore_entries_lem m lock_nr j words at_most (omega arith) pos few in
    (
      m',
      restore-run m lock_nr size words (omega arith)
          ∙ (ap (λ (t : ℕ). restore_entries m lock_nr (t + bucket_size) words) run ∙ done),
      sized,
      omega (arith, entries, pow-suc 2 j),
      split,
    )

-- A region of more than 32 entries and less than 2 ^ 36 bytes, with a positive 32-bit number of
-- locks, gives a table of a power of two of home slots, which lies in the region and takes at
-- least half of what the bucket behind it leaves, with a split of the locks.
pub restore_lem :
    (m : Map) (lock_nr size : ℕ) (words : List HashEntry)
    → entry_size * (bucket_size + 1) ≤ size
    → size < 2 ^ 36
    → size ≤ entry_size * length words
    → 0 < lock_nr
    → lock_nr < 2 ^ 32
    → (m' : Map) × (restore m lock_nr size (some words) ≡ ready m')
      × IsSized m'
      × (size < entry_size * (2 * m'.entry_nr))
      × SplitsLocks m'.entry_nr m'.lock_nr m'.entry_per_lock_nr
restore_lem m lock_nr size words big small held pos few =
    let (j, run, lo, hi) =
      round_down_pow2_lem (size / entry_size - bucket_size) (omega arith) (omega arith) in
    restore_rounded m lock_nr size words j big small held pos few run lo hi

unmasked :
    (m : Map) (words : List HashEntry) (locks per h : ℕ)
    → h < 2 ^ 64
    → hash_to_hb (set_sizes m bucket_size words (locks, per)) h ≡ h
unfolding hash_to_hb
unmasked m words locks per h lt = bit_and-mask 64 h ∙ mod-eq_of_lt lt

-- `restore` accepts a region of exactly 32 entries, with a positive 32-bit number of locks.
-- Then no slot is left for home slots, and the home slot of a 64-bit hash is the hash itself,
-- which need not lie in the table.
pub restore_smallest :
    (m : Map) (lock_nr : ℕ) (words : List HashEntry) (h : ℕ)
    → 0 < lock_nr
    → lock_nr < 2 ^ 32
    → h < 2 ^ 64
    → (m' : Map) × (restore m lock_nr (entry_size * bucket_size) (some words) ≡ ready m')
      × (m'.entry_nr ≡ bucket_size)
      × (hash_to_hb m' h ≡ h)
restore_smallest m lock_nr words h pos few lt =
    let (locks, per, loop, split) =
      lock_loop_lem 33 bucket_size lock_nr pos (omega arith) (omega arith) in
    let nothing : round_down_pow2 (entry_size * bucket_size / entry_size - bucket_size) ≡ 0 =
      round_down_pow2-zero in
    (
      set_sizes m bucket_size words (locks, per),
      restore-run m lock_nr (entry_size * bucket_size) words (omega arith)
          ∙ (ap (λ (t : ℕ). restore_entries m lock_nr (t + bucket_size) words) nothing
              ∙ restore_entries-run m lock_nr bucket_size words (locks, per) loop),
      refl,
      unmasked m words locks per h lt,
    )
