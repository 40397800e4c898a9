-- ===== src/Directory/Choice.antt =====
-- Which table of the directory a hash belongs to (udepot-directory-map.hh).
use native.Mathlib.Nat.{
  div-lt_iff_lt-mul, mod-lt, one-le-pow, div-div-eq-div-mul, mod-mod, pow-suc, add-zero, add-suc,
  mul_assoc,
}
use u_depot.Base.{
  ℕ, zero, suc, ◌+◌, ◌-◌, ◌*◌, ◌/◌, ◌%◌, ◌^◌, ◌≤◌, ◌<◌, ◌≡◌, sym, ap, subst, ◌∙◌, List, length,
  arith, bit_and-mask,
}
use u_depot.HashEntry.{keytag_bits}
use u_depot.Map.{Map, hash_to_keyfp}
use u_depot.Directory.{dir_idx_bits, hash_to_dir_idx}
use u_depot.Util.{bit_count}
use u_depot.Util.Rounding.{bit_count_lem}

pub pow-add : (a b : ℕ) → 2 ^ (a + b) ≡ 2 ^ a * 2 ^ b
pow-add a zero = rw (add-zero a) (omega arith)
pow-add a (suc b) =
    rw (add-suc a b, pow-suc 2 (a + b), pow-suc 2 b, pow-add a b) (mul_assoc (2 ^ a) (2 ^ b) 2)

hash_to_dir_idx_lem :
    (bits h k : ℕ)
    → hash_to_dir_idx bits h k ≡ h % 2 ^ (keytag_bits + bits) / 2 ^ (keytag_bits + bits - k)
unfolding hash_to_dir_idx
hash_to_dir_idx_lem bits h k =
    ap (λ t. t / 2 ^ (keytag_bits + bits - k)) (bit_and-mask (keytag_bits + bits) h)

-- The index of a hash in a directory lies below the number of tables that its width counts, if
-- the fingerprint is at least so wide.
pub hash_to_dir_idx-lt : (bits h k : ℕ) → k ≤ keytag_bits + bits → hash_to_dir_idx bits h k < 2 ^ k
hash_to_dir_idx-lt bits h k le =
    let n : ℕ = keytag_bits + bits in
    let whole : 2 ^ n ≡ 2 ^ k * 2 ^ (n - k) =
      ap (λ (t : ℕ). 2 ^ t) (let e : n ≡ k + (n - k) = omega arith in e) ∙ pow-add k (n - k) in
    rw (hash_to_dir_idx_lem bits h k) (
      (div-lt_iff_lt-mul {k = 2 ^ (n - k)} (one-le-pow (n - k) 2 (omega arith))).1
        (subst (λ t. h % 2 ^ n < t) whole (mod-lt h (one-le-pow n 2 (omega arith)))))

-- While the fingerprint has a bit left, the index of a hash in a directory that has doubled is
-- its old index with one more bit.
pub hash_to_dir_idx-suc :
    (bits h k : ℕ)
    → k < keytag_bits + bits
    → hash_to_dir_idx bits h (suc k) / 2 ≡ hash_to_dir_idx bits h k
hash_to_dir_idx-suc bits h k lt =
    let n : ℕ = keytag_bits + bits in
    let step : 2 ^ (n - suc k) * 2 ≡ 2 ^ (n - k) =
      sym (pow-suc 2 (n - suc k))
      ∙ ap (λ (t : ℕ). 2 ^ t) (let e : suc (n - suc k) ≡ n - k = omega arith in e) in
    rw (hash_to_dir_idx_lem bits h (suc k), hash_to_dir_idx_lem bits h k, div-div-eq-div-mul, step)

-- A fingerprint chooses the table of the hash that it was taken from.
pub hash_to_dir_idx-keyfp :
    (m : Map) (h k : ℕ)
    → hash_to_dir_idx m.entry_nr_bits (hash_to_keyfp m h) k ≡ hash_to_dir_idx m.entry_nr_bits h k
unfolding hash_to_keyfp
hash_to_dir_idx-keyfp m h k = rw (
  bit_and-mask (keytag_bits + m.entry_nr_bits) h,
  hash_to_dir_idx_lem,
  hash_to_dir_idx_lem m.entry_nr_bits h k,
  mod-mod,
)

-- For a 64-bit number of tables that is positive, the width of the directory's index is that of
-- the largest power of two that is not above the number of tables.
pub dir_idx_bits_lem :
    (tables : List Map)
    → 0 < length tables
    → length tables < 2 ^ 64
    → (2 ^ dir_idx_bits tables ≤ length tables) × (length tables < 2 ^ suc (dir_idx_bits tables))
unfolding dir_idx_bits
dir_idx_bits_lem tables pos lt =
    let (j, run, lo, hi, few) = bit_count_lem 64 (length tables) 0 pos lt in
    let e : 63 - (64 - bit_count 64 (length tables) 0) ≡ j = omega arith in rw e (lo, hi)
