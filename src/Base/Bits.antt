-- ===== src/Base/Bits.antt =====
-- `&` with a mask of ones and `|` of disjoint fields, as arithmetic.
use Prim.Native.Nat.{
  ℕ, zero, suc, ◌+◌, ◌-◌, ◌*◌, ◌/◌, ◌%◌, ◌^◌, ◌≤◌, ◌<◌, min, max, bit_and, bit_or, digits,
  bit_and-bitwise, bit_or-bitwise,
}
use mathlib.Core.Path.{◌≡◌, refl, ap, ◌∙◌}
use native.Mathlib.Nat.{
  pow-suc, one-le-pow, mod-lt, mod-eq_of_lt, div-add-mod, mul-add-mod_self_right, mul_assoc,
}
use native.Mathlib.Omega.{arith}

-- The recursion on digits gives the same with any two sufficient counts of digits.
module _ (rest : ℕ → ℕ) (op : ℕ → ℕ → ℕ) where
  digits_enough : (k l a b : ℕ) → a ≤ k → a ≤ l → digits rest op k a b ≡ digits rest op l a b
  digits_enough zero l (suc a) b hk hl = absurd (omega arith)
  digits_enough (suc k) zero (suc a) b hk hl = absurd (omega arith)
  digits_enough zero zero zero b hk hl = refl
  digits_enough zero (suc l) zero b hk hl = refl
  digits_enough (suc k) zero zero b hk hl = refl
  digits_enough (suc k) (suc l) zero b hk hl = refl
  digits_enough (suc k) (suc l) (suc a) b hk hl =
      ap (λ t. t * 2 + op (suc a % 2) (b % 2))
        (digits_enough k l (suc a / 2) (b / 2) (omega arith) (omega arith))

and_halves : (a b : ℕ) → bit_and a b ≡ bit_and (a / 2) (b / 2) * 2 + min (a % 2) (b % 2)
and_halves zero b = simp bit_and-bitwise (omega arith)
and_halves (suc a) b = simp bit_and-bitwise (
    omega (
      arith,
      digits_enough (λ y. 0) min a (suc a / 2) (suc a / 2) (b / 2) (omega arith) (omega arith),
    ))

or_halves : (a b : ℕ) → bit_or a b ≡ bit_or (a / 2) (b / 2) * 2 + max (a % 2) (b % 2)
or_halves zero b = simp bit_or-bitwise (omega arith)
or_halves (suc a) b = simp bit_or-bitwise (
    omega (
      arith,
      digits_enough (λ y. y) max a (suc a / 2) (suc a / 2) (b / 2) (omega arith) (omega arith),
    ))

-- Both right-hand sides that are 0 need a bound on the number of halvings.
and_nothing : (n a : ℕ) → a ≤ n → bit_and a 0 ≡ 0
and_nothing n zero h = refl
and_nothing zero (suc a) h = absurd (omega arith)
and_nothing (suc n) (suc a) h =
    omega (arith, and_halves (suc a) 0, and_nothing n (suc a / 2) (omega arith))

or_nothing : (n a : ℕ) → a ≤ n → bit_or a 0 ≡ a
or_nothing n zero h = refl
or_nothing zero (suc a) h = absurd (omega arith)
or_nothing (suc n) (suc a) h =
    omega (arith, or_halves (suc a) 0, or_nothing n (suc a / 2) (omega arith))

-- The remainder by a doubled modulus, in terms of the halves.
mod_doubled : (p a : ℕ) → 0 < p → a % (p * 2) ≡ a / 2 % p * 2 + a % 2
mod_doubled p a h =
    let q : ℕ = a / 2 / p in
    let r : ℕ = a / 2 % p * 2 + a % 2 in
    let whole : a ≡ q * (p * 2) + r = grind (arith, div-add-mod (a / 2) p) in
    let small : r < p * 2 = omega (arith, mod-lt (a / 2) h) in
    ap (λ t. t % (p * 2)) whole ∙ (mul-add-mod_self_right q (p * 2) r ∙ mod-eq_of_lt small)

-- One digit of each law, over a power of two that is a variable.
mask_digit :
    (p a : ℕ) → 0 < p → bit_and (a / 2) (p - 1) ≡ a / 2 % p → bit_and a (p * 2 - 1) ≡ a % (p * 2)
mask_digit p a h ih =
    let half : (p * 2 - 1) / 2 ≡ p - 1 = omega arith in
    let odd : (p * 2 - 1) % 2 ≡ 1 = omega arith in
    rw (and_halves a (p * 2 - 1), half, odd, ih, mod_doubled p a h) (omega arith)

shifted_digit : (t r : ℕ) → bit_or t (r / 2) ≡ t + r / 2 → bit_or (t * 2) r ≡ t * 2 + r
shifted_digit t r ih =
    let half : t * 2 / 2 ≡ t = omega arith in
    let even : t * 2 % 2 ≡ 0 = omega arith in rw (or_halves (t * 2) r, half, even, ih) (omega arith)

-- A mask of `k` ones leaves the remainder by `2 ^ k`.
pub bit_and-mask : (k a : ℕ) → bit_and a (2 ^ k - 1) ≡ a % 2 ^ k
bit_and-mask zero a = omega (arith, and_nothing a a (omega arith))
bit_and-mask (suc k) a =
    rw (pow-suc 2 k) (mask_digit (2 ^ k) a (one-le-pow k 2 (omega arith)) (bit_and-mask k (a / 2)))

-- `(q << k) | r` is the sum where `r` fits `k` bits.
pub bit_or-shifted : (k q r : ℕ) → r < 2 ^ k → bit_or (q * 2 ^ k) r ≡ q * 2 ^ k + r
bit_or-shifted zero q r h =
    let e : q * 2 ^ 0 ≡ q = omega arith in
    let e2 : r ≡ 0 = omega arith in rw (e, e2) (omega (arith, or_nothing q q (omega arith)))
bit_or-shifted (suc k) q r h =
    rw (pow-suc 2 k, ← mul_assoc q (2 ^ k) 2)
      (shifted_digit (q * 2 ^ k) r (bit_or-shifted k q (r / 2) (omega (arith, pow-suc 2 k))))
