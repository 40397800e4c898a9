-- ===== src/Util/Rounding.antt =====
-- The counts of bits and the roundings of debug.h, against powers of two.
use native.Mathlib.Nat.{pow-suc, div-add-mod', mod-lt}
use native.Mathlib.Decide.{ℕ_discrete}
use u_depot.Base.{
  ℕ, zero, suc, ◌+◌, ◌-◌, ◌*◌, ◌/◌, ◌%◌, ◌^◌, ◌≤◌, ◌<◌, ◌≡◌, refl, Bool, true, false, inl, inr,
  if◌then◌else◌, Bool-cases, ltb, lt→ltb, ◌==◌, arith, sub64,
}
use u_depot.Util.{num_bits, udiv_round_up, bit_count, round_down_pow2}

-- A test of the numbers under a bound, from the bound downwards.
tested : (ℕ → Bool) → ℕ → Bool
tested test zero = true
tested test (suc top) = if test top then tested test top else false

tested_at : (test : ℕ → Bool) (top k : ℕ) → k < top → tested test top ≡ true → test k ≡ true
unfolding tested
tested_at test zero k low e = absurd (omega arith)
tested_at test (suc top) k low e = elim (Bool-cases (test top)) [
  | inr bad ↦ absurd (let f : false ≡ true = rw bad at e in cc f)
  | inl good ↦ elim (ℕ_discrete k top) [
    | yes same ↦ rw same good
    | no ne ↦ tested_at test top k (omega arith) (rw good at e)
  ]
]

abbrev mask_test : ℕ → Bool
mask_test k = num_bits (2 ^ k - 1) == k

masks_tested : tested mask_test 65 ≡ true
unfolding tested num_bits
masks_tested = refl

-- NUM_BITS of a mask of `k` ones is `k`, for every width up to 64.
pub num_bits-mask : (k : ℕ) → k ≤ 64 → num_bits (2 ^ k - 1) ≡ k
num_bits-mask k h =
    let e : mask_test k ≡ true = tested_at mask_test 65 k (omega arith) masks_tested in ground arith

bit_count-zero : (fuel v n : ℕ) → v ≡ 0 → bit_count fuel v n ≡ n
unfolding bit_count
bit_count-zero zero v n e = refl
bit_count-zero (suc fuel) v n e = ground arith

-- The shifts of `round_down_pow2` count the digits of a number.
pub bit_count_lem :
    (fuel v n : ℕ)
    → 0 < v
    → v < 2 ^ fuel
    → (j : ℕ) × (bit_count fuel v n ≡ n + suc j) × (2 ^ j ≤ v) × (v < 2 ^ suc j) × (j < fuel)
unfolding bit_count
bit_count_lem zero v n pos lt = absurd (omega arith)
bit_count_lem (suc fuel) v n pos lt = elim (Bool-cases (v / 2 == 0)) [
  | inl one ↦ (
    0,
    ground (arith, bit_count-zero fuel (v / 2) (n + 1)),
    omega arith,
    ground arith,
    omega arith,
  )
  | inr more ↦
      let (j, run, lo, hi, few) =
        bit_count_lem fuel (v / 2) (n + 1) (ground arith) (omega (arith, pow-suc 2 fuel)) in
      (
        suc j,
        ground arith,
        omega (arith, pow-suc 2 j),
        omega (arith, pow-suc 2 (suc j)),
        omega arith,
      )
]

-- `round_down_pow2` gives the largest power of two that is not above a positive 64-bit number.
pub round_down_pow2_lem :
    (v : ℕ)
    → 0 < v
    → v < 2 ^ 64
    → (j : ℕ) × (round_down_pow2 v ≡ 2 ^ j) × (2 ^ j ≤ v) × (v < 2 ^ suc j)
unfolding round_down_pow2
round_down_pow2_lem v pos lt =
    let (j, run, lo, hi, few) = bit_count_lem 64 v 0 pos lt in
    let e : 0 + suc j - 1 ≡ j = omega arith in
    let test : ltb 0 (0 + suc j) ≡ true = lt→ltb 0 (0 + suc j) (omega arith) in
    (j, rw (run, test, e), lo, hi)

-- For a positive divisor, and a sum with the dividend that is a 64-bit number, `udiv_round_up`
-- gives the least number of parts of the divisor's size that hold the dividend.
pub udiv_round_up_lem :
    (n d : ℕ)
    → 0 < d
    → n + d < 2 ^ 64
    → (n ≤ udiv_round_up n d * d) × (udiv_round_up n d * d < n + d)
unfolding udiv_round_up
udiv_round_up_lem n d pos fits =
    let nonzero : (d == 0) ≡ false = ground arith in
    let e : sub64 ((n + d) % 2 ^ 64) 1 ≡ n + d - 1 = omega arith in
    rw (nonzero, e)
      (
        omega (arith, div-add-mod' (n + d - 1) d, mod-lt (n + d - 1) pos),
        omega (arith, div-add-mod' (n + d - 1) d),
      )

pub round_down_pow2-zero : round_down_pow2 0 ≡ 0
unfolding round_down_pow2
round_down_pow2-zero = refl
