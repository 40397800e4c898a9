-- ===== src/Map/Keys.antt =====
-- Hashes, home slots, tags and fingerprints of udepot-map.hh as arithmetic, in a table of
-- 2 ^ entry_nr_bits home slots.
use native.Mathlib.Nat.{
  pow-suc, one-le-pow, pow-le-pow_right, mod-lt, mod-eq_of_lt, div-add-mod', mul-le-mul,
  mul-le-mul_right, mul-add-mod_self_right,
}
use u_depot.Base.{
  ℕ, zero, suc, ◌+◌, ◌-◌, ◌*◌, ◌/◌, ◌%◌, ◌^◌, ◌≤◌, ◌<◌, ◌≡◌, ◌∙◌, refl, ap, arith, length, sub64,
  shl64, bit_and-mask, bit_or-shifted,
}
use u_depot.HashEntry.{bucket_size, keytag_bits}
use u_depot.Map.{Map, at, hash_to_hb, hash_to_keytag, hash_to_keyfp, entry_keyfp}

-- The number of home slots is a power of two, at most 2 ^ 32, and a bucket's slots more stand behind.
pub record IsSized (m : Map) : Type 0 where
  pub homes : m.entry_nr ≡ 2 ^ m.entry_nr_bits + bucket_size
  pub few : m.entry_nr_bits ≤ 32
  pub width : m.entry_nr ≤ length m.ht

abbrev pub homes_of : Map → ℕ
homes_of m = 2 ^ m.entry_nr_bits

-- Slot `p` holds an entry whose home slot is in the table, at most a bucket before it.
pub record IsPlaced (m : Map) (p : ℕ) : Type 0 where
  pub near : (at m p).bucket_offset < bucket_size
  pub after_home : (at m p).bucket_offset ≤ p
  pub home_in : p - (at m p).bucket_offset < homes_of m
  pub tag_in : (at m p).key_tag < 2 ^ keytag_bits

abbrev pub home_of : Map → ℕ → ℕ
home_of m p = p - (at m p).bucket_offset

pow_tagged : (b : ℕ) → 2 ^ (8 + b) ≡ 256 * 2 ^ b
pow_tagged zero = refl
pow_tagged (suc b) = omega (
  arith,
  pow-suc 2 (8 + b),
  pow-suc 2 b,
  pow_tagged b,
  ap (λ (k : ℕ). 2 ^ k) (let e : 8 + suc b ≡ suc (8 + b) = omega arith in e),
)

-- The remainder by a product, in two digits.
mod_digits : (p a : ℕ) → 0 < p → a % (256 * p) ≡ a / p % 256 * p + a % p
mod_digits p a h =
    let q : ℕ = a / p / 256 in
    let r : ℕ = a / p % 256 * p + a % p in
    let whole : a ≡ q * (256 * p) + r =
      omega (arith, div-add-mod' a p, ap (λ (t : ℕ). t * p) (div-add-mod' (a / p) 256)) in
    let small : r < 256 * p =
      omega
        (arith, mul-le-mul_right p (let k : a / p % 256 ≤ 255 = omega arith in k), mod-lt a h) in
    ap (λ t. t % (256 * p)) whole ∙ (mul-add-mod_self_right q (256 * p) r ∙ mod-eq_of_lt small)

module _ {m : Map} (s : IsSized m) where
  pub homes_bounds : (1 ≤ homes_of m) × (homes_of m ≤ 2 ^ 32)
  homes_bounds = (one-le-pow m.entry_nr_bits 2 (omega arith), pow-le-pow_right (omega arith) s.few)

  pub hash_to_hb_lem : (h : ℕ) → hash_to_hb m h ≡ h % homes_of m
  unfolding hash_to_hb
  hash_to_hb_lem h =
      let e : sub64 (sub64 m.entry_nr bucket_size) 1 ≡ homes_of m - 1 =
        omega (arith, s.homes, homes_bounds) in
      rw e (bit_and-mask m.entry_nr_bits h)

  pub hash_to_hb-lt : (h : ℕ) → hash_to_hb m h < homes_of m
  hash_to_hb-lt h = rw (hash_to_hb_lem h) (mod-lt h homes_bounds.0)

  pub hash_to_keytag_lem : (h : ℕ) → hash_to_keytag m h ≡ h / homes_of m % 256
  unfolding hash_to_keytag
  hash_to_keytag_lem h = bit_and-mask 8 (h / homes_of m)

  pub hash_to_keyfp_lem :
      (h : ℕ) → hash_to_keyfp m h ≡ hash_to_keytag m h * homes_of m + hash_to_hb m h
  unfolding hash_to_keyfp
  hash_to_keyfp_lem h =
      rw
        (
          bit_and-mask (8 + m.entry_nr_bits) h,
          pow_tagged m.entry_nr_bits,
          hash_to_keytag_lem h,
          hash_to_hb_lem h,
        )
        (mod_digits (homes_of m) h homes_bounds.0)

  pub entry_keyfp_lem :
      (p : ℕ)
      → p < 2 ^ 64
      → IsPlaced m p
      → entry_keyfp m p ≡ (at m p).key_tag * homes_of m + home_of m p
  unfolding entry_keyfp
  entry_keyfp_lem p lt v =
      let e : sub64 p (at m p).bucket_offset ≡ home_of m p = omega (arith, v.after_home) in
      let f : shl64 (at m p).key_tag m.entry_nr_bits ≡ (at m p).key_tag * homes_of m =
        mod-eq_of_lt (
          omega (
            arith,
            mul-le-mul (let k : (at m p).key_tag ≤ 255 = omega (arith, v.tag_in) in k)
                homes_bounds.1,
          )) in
      rw (e, f) (bit_or-shifted m.entry_nr_bits (at m p).key_tag (home_of m p) v.home_in)

  -- In a table of a power of two of home slots, the fingerprint of an entry that stands in its
  -- bucket has the entry's home slot.
  pub hash_to_hb-entry_keyfp :
      (p : ℕ) → p < 2 ^ 64 → IsPlaced m p → hash_to_hb m (entry_keyfp m p) ≡ home_of m p
  hash_to_hb-entry_keyfp p lt v =
      rw (hash_to_hb_lem, entry_keyfp_lem p lt v)
        (mul-add-mod_self_right (at m p).key_tag (homes_of m) (home_of m p)
          ∙ mod-eq_of_lt v.home_in)

abbrev pub InBucket : Map → ℕ → ℕ → Type 0
InBucket m h q = (hash_to_hb m h ≤ q) × (q < hash_to_hb m h + bucket_size)

-- Slot `q` is labelled with the home slot and the tag of `h`.
abbrev pub IsTagged : Map → ℕ → ℕ → Type 0
IsTagged m h q =
    ((at m q).bucket_offset ≡ q - hash_to_hb m h) × ((at m q).key_tag ≡ hash_to_keytag m h)

module _ {m : Map} (s : IsSized m) (h q : ℕ) (b : InBucket m h q) where
  pub in_table : (q < length m.ht) × (q < 2 ^ 64)
  in_table = omega (arith, s.homes, s.width, homes_bounds s, hash_to_hb-lt s h, b.0, b.1)

  pub IsTagged-IsPlaced : IsTagged m h q → IsPlaced m q
  IsTagged-IsPlaced t = record {
    near = omega (arith, t.0, b.0, b.1);
    after_home = omega (arith, t.0, b.0);
    home_in = omega (arith, t.0, b.0, hash_to_hb-lt s h);
    tag_in = omega (arith, t.1, hash_to_keytag_lem s h);
  }

  -- In a table of a power of two of home slots, a slot in the bucket of a hash that is labelled
  -- with the hash's home slot and tag has the fingerprint of the hash.
  pub IsTagged-keyfp : IsTagged m h q → entry_keyfp m q ≡ hash_to_keyfp m h
  IsTagged-keyfp t =
      let home : home_of m q ≡ hash_to_hb m h = omega (arith, t.0, b.0) in
      entry_keyfp_lem s q in_table.1 (IsTagged-IsPlaced t) ∙ rw (home, t.1, hash_to_keyfp_lem s h)
