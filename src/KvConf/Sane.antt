-- ===== src/KvConf/Sane.antt =====
-- src/uDepot/kv-conf.cc: the parameters that the configuration leaves.
use native.Mathlib.Nat.{
  mod-eq-zero_of_dvd, dvd-mul_left_of_dvd, dvd_of_mod-eq-zero, mod_self, mul-div_cancel,
  pow-le-pow_right, mul-mod_left, pow-suc, one-le-pow, mul_assoc,
}
use native.Mathlib.Decide.{dec_lt}
use u_depot.Base.{
  ℕ, suc, ◌+◌, ◌-◌, ◌*◌, ◌/◌, ◌%◌, ◌^◌, max, ◌<◌, ◌≤◌, ◌≡◌, ◌⊎◌, refl, sym, ap, ◌∙◌, true, false,
  Bool-cases, inl, inr, ltb, lt→ltb, subst, ◌==◌, if◌then◌else◌, arith,
}
use u_depot.Util.{align_up, align_down, round_down_pow2}
use u_depot.Util.Rounding.{round_down_pow2_lem}
use u_depot.Directory.Choice.{pow-add}
use u_depot.KvConf.{
  KvConf, is_direct, sanitize_grain_size, step_size, sanitize_segment_size,
  validate_and_sanitize_parameters,
}
use u_depot.KvConf.Segments.{sanitize_segment_size-bounds}

-- A grain is a power of two, no larger than asked for; a segment has at least one grain, and is one
-- grain or whole pages; the part that is set aside is from 0.5 to 60 percent.
pub record IsSane (page_size asked : ℕ) (c : KvConf) : Type 0 where
  pub power : (j : ℕ) × (c.grain_size ≡ 2 ^ j) × (2 ^ j ≤ max 1 asked) × (max 1 asked < 2 ^ suc j)
  pub segment_pos : 0 < c.segment_size
  pub pages : (c.segment_size ≡ 1) ⊎ (c.segment_size * c.grain_size % page_size ≡ 0)
  pub set_aside : (5 ≤ c.overprovision) × (c.overprovision ≤ 600)

pow-split : (i j : ℕ) → j ≤ i → 2 ^ i ≡ 2 ^ (i - j) * 2 ^ j
pow-split i j le =
    ap (λ (k : ℕ). 2 ^ k) (let e : i ≡ i - j + j = omega arith in e) ∙ pow-add (i - j) j

align_down-multiple : (n unit : ℕ) → (k : ℕ) × (align_down n unit ≡ k * unit)
unfolding align_down
align_down-multiple n unit = elim (Bool-cases (unit == 0)) [
  | inl zero_unit ↦ (0, rw zero_unit (omega arith))
  | inr some_unit ↦ (n / unit, rw some_unit refl)
]

step_size-page : (i j : ℕ) → 2 ^ j < 2 ^ i → step_size (2 ^ i) (2 ^ j) * 2 ^ j ≡ 2 ^ i
unfolding step_size
step_size-page i j lt =
    let le : j ≤ i = elim (dec_lt i j) [
      | yes below ↦ absurd (
          omega (
            arith,
            lt,
            pow-le-pow_right {n = 2} (omega arith) {i = i} {j = j} (omega (arith, below)),
          ))
      | no not_below ↦ omega (arith, not_below)
    ] in
    let split = pow-split i j le in
    let quotient : 2 ^ i / 2 ^ j ≡ 2 ^ (i - j) =
      ap (λ k. k / 2 ^ j) split ∙ mul-div_cancel (2 ^ (i - j)) (one-le-pow j 2 (omega arith)) in
    let less : ltb (2 ^ j) (2 ^ i) ≡ true = lt→ltb _ _ lt in
    rw (step_size, less) (ap (λ k. k * 2 ^ j) quotient ∙ sym split)

step_size-one : (i j : ℕ) → 2 ^ i ≤ 2 ^ j → step_size (2 ^ i) (2 ^ j) * 2 ^ j % 2 ^ i ≡ 0
unfolding step_size
step_size-one i j le =
    let more : ltb (2 ^ j) (2 ^ i) ≡ false = ground (arith, le) in
    let i_le : i ≤ j = elim (dec_lt j i) [
      | yes below ↦ absurd (
          omega (
            arith,
            le,
            pow-le-pow_right {n = 2} (omega arith) {i = suc j} {j = i} (omega (arith, below)),
            pow-suc 2 j,
            one-le-pow j 2 (omega arith),
          ))
      | no not_below ↦ omega (arith, not_below)
    ] in
    rw (step_size, more)
      (ap (λ k. k % 2 ^ i)
          (let one_step : 1 * 2 ^ j ≡ 2 ^ j = omega arith in one_step ∙ pow-split j i i_le)
        ∙ mul-mod_left (2 ^ (j - i)) (2 ^ i))

-- Whole steps of grains are whole pages.
step_size-pages : (i j : ℕ) → step_size (2 ^ i) (2 ^ j) * 2 ^ j % 2 ^ i ≡ 0
step_size-pages i j = elim (dec_lt (2 ^ j) (2 ^ i)) [
  | yes less ↦ ap (λ k. k % 2 ^ i) (step_size-page i j less) ∙ mod_self (2 ^ i)
  | no more ↦ step_size-one i j (omega (arith, more))
]

multiple-pages : (k a b page : ℕ) → a * b % page ≡ 0 → k * a * b % page ≡ 0
multiple-pages k a b page e =
    ap (λ n. n % page) (mul_assoc k a b)
    ∙ mod-eq-zero_of_dvd page (dvd-mul_left_of_dvd page (dvd_of_mod-eq-zero page e) k)

sanitize_segment_size-pages :
    (i j n : ℕ)
    → (sanitize_segment_size (2 ^ i) (2 ^ j) n ≡ 1)
      ⊎ (sanitize_segment_size (2 ^ i) (2 ^ j) n * 2 ^ j % 2 ^ i ≡ 0)
unfolding sanitize_segment_size
sanitize_segment_size-pages i j n =
    let (k, e) = align_down-multiple n (step_size (2 ^ i) (2 ^ j)) in
    let steps = k * step_size (2 ^ i) (2 ^ j) in
    elim (dec_lt 0 steps) [
      | no none_left ↦ inl (ap (max 1) e ∙ omega (arith, none_left))
      | yes some_left ↦
          let same : max 1 steps ≡ steps = omega (arith, some_left) in
          inr (
            ap (λ l. l * 2 ^ j % 2 ^ i) (ap (max 1) e ∙ same)
            ∙ multiple-pages k (step_size (2 ^ i) (2 ^ j)) (2 ^ j) (2 ^ i) (step_size-pages i j))
    ]

-- what the size of a grain is cut from
abbrev pub asked_grain_size : KvConf → ℕ
asked_grain_size c = if is_direct c.type then align_up c.grain_size 512 else c.grain_size

-- On pages of a power of two of bytes, and for a size of grains that is still a 64-bit number
-- once it is aligned for the type, the sanitized grain is the largest power of two that is not
-- above it (at least 1), a segment has at least one grain and is one grain or whole pages, and
-- the part that is set aside is from 5 to 600 thousandths.
pub validate_and_sanitize_parameters-IsSane :
    (i : ℕ) (c : KvConf)
    → asked_grain_size c < 2 ^ 64
    → IsSane (2 ^ i) (asked_grain_size c) (validate_and_sanitize_parameters (2 ^ i) c)
unfolding validate_and_sanitize_parameters sanitize_grain_size
validate_and_sanitize_parameters-IsSane i c small =
    let asked = asked_grain_size c in
    let (j, e, lo, hi) = round_down_pow2_lem (max 1 asked) (omega arith) (omega (arith, small)) in
    let bounds =
      sanitize_segment_size-bounds (2 ^ i) (round_down_pow2 (max 1 asked)) c.segment_size in
    record {
      power = (j, e, lo, hi);
      segment_pos = bounds.0;
      pages =
          subst
            (λ g.
              (sanitize_segment_size (2 ^ i) g c.segment_size ≡ 1)
              ⊎ (sanitize_segment_size (2 ^ i) g c.segment_size * g % 2 ^ i ≡ 0))
            (sym e) (sanitize_segment_size-pages i j c.segment_size);
      set_aside = (omega arith, omega arith);
    }
