-- ===== src/Store/Records.antt =====
-- A record of the store, and what the lookups read of it.
use u_depot.Base.{
  ℕ, zero, suc, ◌+◌, ◌*◌, ◌/◌, ◌^◌, ◌≤◌, ◌<◌, ◌≡◌, refl, sym, ap, ◌∙◌, true, List, [], ◌∷◌, ◌++◌,
  take, drop, length, ◌==◌, length-append, low32, arith,
}
use native.Mathlib.Nat.{
  suc-mul, mul_comm, mul_assoc, lt_of_mul-lt-mul_right, le_of_mul-le-mul_right, le-div_iff_mul-le,
}
use u_depot.Util.{udiv_round_up, align_up, uceil_up}
use u_depot.Util.Rounding.{udiv_round_up_lem}
use u_depot.HashEntry.{HashEntry}
use u_depot.Store.{
  Rc, eio, Header, Env, Device, got, pread_full, prefix_size, suffix_size, encode_header,
  kv_tot_grains_get, io_alignment, aligned,
}
use u_depot.Store.Bytes.{
  take-front, drop-front, drop-two, decode_header-encode_header, length-encode_header,
}
use u_depot.Store.Search.{matched}
use u_depot.Store.Lookup.{equal_bytes, is_match, read_record, read_whole, examine_value}

equal_bytes_refl : (xs : List ℕ) → equal_bytes xs xs ≡ true
unfolding equal_bytes
equal_bytes_refl [] = refl
equal_bytes_refl (x ∷ xs) =
    let same : (x == x) ≡ true = ground arith in rw (equal_bytes, same) (equal_bytes_refl xs)

eq-same : (a b : ℕ) → a ≡ b → (a == b) ≡ true
eq-same a b e = ground arith

-- A record of the key, with any bytes behind it, matches the key.
pub is_match-encode_header :
    (md : Header) (key rest : List ℕ)
    → md.key_size ≡ length key
    → length key < 2 ^ 16
    → md.val_size < 2 ^ 32
    → md.timestamp < 2 ^ 64
    → is_match key (encode_header md ++ (key ++ rest)) ≡ true
unfolding is_match
is_match-encode_header md key rest same k v t =
    let decoded = decode_header-encode_header md (key ++ rest) (rw same k) v t in
    let key_at : take (length key) (drop 14 (encode_header md ++ (key ++ rest))) ≡ key =
      ap (take (length key))
        (drop-front 14 (encode_header md) (key ++ rest) (length-encode_header md))
      ∙ take-front (length key) key rest refl in
    let size : (md.key_size == length key) ≡ true = ground arith in
    rw (is_match, decoded, key_at, size, equal_bytes_refl key) refl

-- A whole number of units is aligned as it is.
pub align_up-multiple :
    (k unit : ℕ) → 0 < unit → k * unit + unit < 2 ^ 64 → align_up (k * unit) unit ≡ k * unit
unfolding align_up uceil_up
align_up-multiple k unit pos small =
    let u : ℕ = udiv_round_up (k * unit) unit in
    let (lo, hi) = udiv_round_up_lem (k * unit) unit pos small in
    let up : u * unit < suc k * unit = omega (arith, suc-mul k unit, hi) in
    let le : u < suc k = lt_of_mul-lt-mul_right unit up in
    let ge : k ≤ u = le_of_mul-le-mul_right lo pos in
    let same : u ≡ k = omega arith in rw (uceil_up, same) (omega (arith, mul_comm k unit))

-- Whole grains are whole blocks of the device.
pub aligned-grains :
    (env : Env) (n units : ℕ)
    → 0 < env.grain_size
    → env.grain_size ≡ units * io_alignment env
    → n * env.grain_size + env.grain_size < 2 ^ 64
    → aligned env (n * env.grain_size) ≡ n * env.grain_size
aligned-grains env n units pos whole small =
    let product : n * env.grain_size ≡ n * units * io_alignment env =
      ap (λ k. n * k) whole ∙ sym (mul_assoc n units (io_alignment env)) in
    ap (λ k. align_up k (io_alignment env)) product
    ∙ align_up-multiple (n * units) (io_alignment env) (omega arith) (omega (arith, product))
    ∙ sym product

-- What a put of the key and the value writes, with `tail` behind the value.
abbrev pub record_bytes : Header → (key value tail : List ℕ) → List ℕ
record_bytes md key value tail = encode_header md ++ (key ++ (value ++ tail))

pub length-record_bytes :
    (md : Header) (key value tail : List ℕ)
    → length (record_bytes md key value tail) ≡ 14 + (length key + (length value + length tail))
length-record_bytes md key value tail = omega (
  arith,
  length-append (encode_header md) (key ++ (value ++ tail)),
  length-encode_header md,
  length-append key (value ++ tail),
  length-append value tail,
)

pub value-record_bytes :
    (md : Header) (key value tail : List ℕ)
    → take (length value) (drop (14 + length key) (record_bytes md key value tail)) ≡ value
value-record_bytes md key value tail =
    ap (take (length value)) (
      drop-two (14 + length key) (encode_header md) key (value ++ tail)
        (ap (λ n. n + length key) (length-encode_header md)))
    ∙ take-front (length value) value tail refl

-- What the sizes and the grains of a record of `key` and `value` have to be.
pub record IsStorable (env : Env) (md : Header) (key value : List ℕ) (grains : ℕ) : Type 0 where
  pub key_same : md.key_size ≡ length key
  pub val_same : md.val_size ≡ length value
  pub key_fits : length key < 2 ^ 16
  pub both_fit : length key + length value < 2 ^ 32
  pub ts_fits : md.timestamp < 2 ^ 64
  pub grains_same : grains ≡ kv_tot_grains_get env.grain_size md.key_size md.val_size

pub read_record-got :
    (env : Env) (dev : Device) (failure : Rc → Rc) (offset size : ℕ) (buf : List ℕ)
    → env.buffers size ≡ true
    → pread_full dev offset size ≡ got buf
    → read_record env dev failure offset size ≡ got buf
unfolding read_record
read_record-got env dev failure offset size buf room read = rw (read_record, room, read) refl

-- A read of an entry that shows a whole record of the key gives it to `lookup_mbuff`.
pub examine_value-record_bytes :
    (env : Env) (dev : Device) (md : Header) (key value tail : List ℕ) (e : HashEntry)
    → IsStorable env md key value e.kv_size
    → read_record env dev
        (λ _. eio)
        (e.pba * env.grain_size)
        (aligned env (e.kv_size * env.grain_size))
      ≡ got (record_bytes md key value tail)
    → examine_value env key dev e ≡ matched md (record_bytes md key value tail)
unfolding examine_value read_whole
examine_value-record_bytes env dev md key value tail e st read =
    let decoded =
      decode_header-encode_header md (key ++ (value ++ tail)) (rw st.key_same st.key_fits)
        (rw st.val_same (omega (arith, st.both_fit))) st.ts_fits in
    let matching =
      is_match-encode_header md key (value ++ tail) st.key_same st.key_fits
        (rw st.val_same (omega (arith, st.both_fit))) st.ts_fits in
    let size : (e.kv_size * env.grain_size
          == env.grain_size * kv_tot_grains_get env.grain_size md.key_size md.val_size)
        ≡ true =
      rw (← st.grains_same) (eq-same _ _ (mul_comm e.kv_size env.grain_size)) in
    rw (examine_value, read, matching, read_whole, decoded, size)
      (ap (λ (x : Header). matched x (record_bytes md key value tail)) decoded)

-- The grains of a record hold it, and less than a grain more.
pub grains_fit :
    (env : Env) (md : Header) (key value : List ℕ) (grains : ℕ)
    → IsStorable env md key value grains
    → 0 < env.grain_size
    → env.grain_size < 2 ^ 32
    → (length key + length value + 16 ≤ grains * env.grain_size)
      × (grains * env.grain_size < length key + length value + 16 + env.grain_size)
unfolding kv_tot_grains_get
grains_fit env md key value grains st pos narrow =
    let both = st.both_fit in
    let size : low32 (low32 md.val_size + low32 md.key_size) + prefix_size + suffix_size
        ≡ length key + length value + 16 =
      omega (arith, st.key_same, st.val_same) in
    let n = length key + length value + 16 in
    let same : grains ≡ udiv_round_up n env.grain_size =
      st.grains_same ∙ ap (λ k. udiv_round_up k env.grain_size) size in
    rw same (udiv_round_up_lem n env.grain_size pos (omega arith))

-- The grains are as many as their bytes fill.
pub grains-le-div : (n g k : ℕ) → 0 < g → k ≡ n * g → n ≤ k / g
grains-le-div n g k pos e = (le-div_iff_mul-le pos).1 (omega (arith, e))

pub pos_of_mul : (n k : ℕ) → 0 < n * k → 0 < n
pos_of_mul zero k pos = absurd (omega arith)
pos_of_mul (suc n) k pos = omega arith
