-- ===== src/Store/Bytes.antt =====
-- Headers and device accesses, written and read back.
use u_depot.Base.{
  ℕ, zero, suc, ◌+◌, ◌-◌, ◌/◌, ◌^◌, ◌≤◌, ◌<◌, ◌≡◌, refl, sym, ap, ◌∙◌, List, ◌++◌, none, take, drop,
  length, length-append, length-take, length-drop, take-append, drop-append, take-all, drop-all,
  append_nil, append_assoc, true, leb, le→leb, arith,
}
use u_depot.Store.{
  Header, Device, le_bytes, le_value, encode_header, decode_header, pread_full, pwrite_full, got,
}

pub length-le_bytes : (n v : ℕ) → length (le_bytes n v) ≡ n
length-le_bytes zero v = refl
length-le_bytes (suc n) v = ap suc (length-le_bytes n (v / 256))

pub le_value-le_bytes : (n v : ℕ) → v < 256 ^ n → le_value (le_bytes n v) ≡ v
le_value-le_bytes zero v small = omega arith
le_value-le_bytes (suc n) v small =
    let ih = le_value-le_bytes n (v / 256) (omega arith) in omega arith

pub take-front {ℓ} : {A : Type ℓ} (n : ℕ) (xs ys : List A) → length xs ≡ n → take n (xs ++ ys) ≡ xs
take-front n xs ys e =
    let none_left : n - length xs ≡ 0 = omega arith in
    take-append n xs ys ∙ rw (none_left, take-all n xs (omega arith)) (append_nil xs)

pub drop-front {ℓ} : {A : Type ℓ} (n : ℕ) (xs ys : List A) → length xs ≡ n → drop n (xs ++ ys) ≡ ys
drop-front n xs ys e =
    let none_left : n - length xs ≡ 0 = omega arith in
    drop-append n xs ys ∙ rw (none_left, drop-all n xs (omega arith)) refl

pub drop-two {ℓ} :
    {A : Type ℓ} (n : ℕ) (xs ys zs : List A)
    → length xs + length ys ≡ n
    → drop n (xs ++ (ys ++ zs)) ≡ zs
drop-two n xs ys zs e =
    ap (drop n) (sym (append_assoc xs ys zs)) ∙ drop-front n (xs ++ ys) zs (length-append xs ys ∙ e)

-- A header of a u16, a u32 and a u64 that is encoded, in front of any bytes, is decoded again.
pub decode_header-encode_header :
    (md : Header) (rest : List ℕ)
    → md.key_size < 2 ^ 16
    → md.val_size < 2 ^ 32
    → md.timestamp < 2 ^ 64
    → decode_header (encode_header md ++ rest) ≡ md
unfolding decode_header encode_header
decode_header-encode_header md rest k v t =
    let ks = le_bytes 2 md.key_size in
    let vs = le_bytes 4 md.val_size in
    let ts = le_bytes 8 md.timestamp in
    let shape : (ks ++ (vs ++ ts)) ++ rest ≡ ks ++ (vs ++ (ts ++ rest)) =
      append_assoc ks (vs ++ ts) rest ∙ ap (λ l. ks ++ l) (append_assoc vs ts rest) in
    let k_len = length-le_bytes 2 md.key_size in
    let v_len = length-le_bytes 4 md.val_size in
    let t_len = length-le_bytes 8 md.timestamp in
    let key_read : le_value (take 2 (ks ++ (vs ++ (ts ++ rest)))) ≡ md.key_size =
      ap le_value (take-front 2 ks (vs ++ (ts ++ rest)) k_len)
      ∙ le_value-le_bytes 2 md.key_size k in
    let val_read : le_value (take 4 (drop 2 (ks ++ (vs ++ (ts ++ rest))))) ≡ md.val_size =
      ap (λ l. le_value (take 4 l)) (drop-front 2 ks (vs ++ (ts ++ rest)) k_len)
      ∙ ap le_value (take-front 4 vs (ts ++ rest) v_len)
      ∙ le_value-le_bytes 4 md.val_size v in
    let ts_read : le_value (take 8 (drop 6 (ks ++ (vs ++ (ts ++ rest))))) ≡ md.timestamp =
      ap (λ l. le_value (take 8 l)) (drop-two 6 ks vs (ts ++ rest) refl)
      ∙ ap le_value (take-front 8 ts rest t_len)
      ∙ le_value-le_bytes 8 md.timestamp t in
    ap decode_header shape ∙ λ i. record {
      key_size = key_read i;
      val_size = val_read i;
      timestamp = ts_read i;
    }

pub length-encode_header : (md : Header) → length (encode_header md) ≡ 14
unfolding encode_header
length-encode_header md = refl

-- A read behind a write, at its place: the written bytes come first.
pub pread_full-over :
    (dev : Device) (offset size : ℕ) (written : List ℕ)
    → offset + length written ≤ length dev.bytes
    → offset + size ≤ length dev.bytes
    → dev.read_fault offset size ≡ none
    → pread_full (pwrite_full dev offset written) offset size
      ≡ got (take size (written ++ drop (offset + length written) dev.bytes))
unfolding pread_full pwrite_full
pread_full-over dev offset size written fits in_bounds well =
    let front = take offset dev.bytes in
    let behind = drop (offset + length written) dev.bytes in
    let front_len : length front ≡ offset = omega (arith, length-take offset dev.bytes) in
    let fits' : leb (offset + size) (length (front ++ (written ++ behind))) ≡ true = le→leb _ _ (
      omega (
        arith,
        length-append front (written ++ behind),
        length-append written behind,
        length-drop (offset + length written) dev.bytes,
      )) in
    rw (pread_full, well, fits', drop-front offset front (written ++ behind) front_len) refl

-- What is written within the device is read back, whole or in part, if the read meets no error.
pub pread_full-pwrite_full :
    (dev : Device) (offset size : ℕ) (written : List ℕ)
    → offset + length written ≤ length dev.bytes
    → size ≤ length written
    → dev.read_fault offset size ≡ none
    → pread_full (pwrite_full dev offset written) offset size ≡ got (take size written)
pread_full-pwrite_full dev offset size written fits part well =
    let none_left : size - length written ≡ 0 = omega arith in
    pread_full-over dev offset size written fits (omega arith) well
    ∙ ap got (take-append size written _ ∙ rw none_left (append_nil (take size written)))
