-- ===== src/Memcache/Item.antt =====
-- src/uDepot/net/mc-helpers.cc: the value that the store keeps for an item, as `handle_store` writes it and
-- `kv_get_for_mc` and `prepare_kvmbuff_for_send` read it: the data, the expiry and the flags.
use u_depot.Base.{
  ℕ, ◌+◌, ◌-◌, ◌%◌, ◌^◌, ◌<◌, ◌||◌, ◌==◌, leb, ◌≡◌, refl, ap, ap₂, ◌∙◌, true, false, List, ◌++◌,
  take, drop, length, length-append, take-all, ltb, lt→ltb, if◌then◌else◌, arith,
}
use native.Mathlib.Nat.{mod-eq_of_lt}
use u_depot.Store.{Rc, done, enodata, le_bytes, le_value}
use u_depot.Store.Bytes.{take-front, drop-front, drop-two, length-le_bytes, le_value-le_bytes}
use u_depot.Store.Put.{PutOp, normal, create, replace}
use u_depot.Store.Get.{Got}
use u_depot.Memcache.{ℤ, pos, negsuc, Req, req_add, req_replace}
use u_depot.Memcache.Numbers.{is_expired}

-- an s64 in memory
abbrev pub bits_of : ℤ → ℕ
bits_of (pos n) = n % 2 ^ 64
bits_of (negsuc n) = 2 ^ 64 - 1 - n % 2 ^ 64

unfoldable pub from_bits : ℕ → ℤ
from_bits w = if ltb w (2 ^ 63) then pos w else negsuc (2 ^ 64 - 1 - w)

-- sizeof(flags_) + sizeof(expiry_)
abbrev pub trailer_size : ℕ
trailer_size = 12

unfoldable pub item_bytes : List ℕ → ℤ → ℕ → List ℕ
item_bytes data_block expiry flags = data_block ++ (le_bytes 8 (bits_of expiry) ++ le_bytes 4 flags)

-- A stored value holds at least its trailer.
pub item_bytes-pos :
    (data_block : List ℕ) (expiry : ℤ) (flags : ℕ) → 0 < length (item_bytes data_block expiry flags)
unfolding item_bytes
item_bytes-pos data_block expiry flags =
    let times = le_bytes 8 (bits_of expiry) in
    omega (
      arith,
      length-append data_block (times ++ le_bytes 4 flags),
      length-append times (le_bytes 4 flags),
      length-le_bytes 4 flags,
    )

-- the kind of put of a storage command
unfoldable pub put_op : Req → PutOp
put_op req_add = create
put_op req_replace = replace
put_op other = normal

-- An item with its flags and its data, or the error.
pub data McGet : Type 0 where
  item : ℕ → List ℕ → McGet
  missing : Rc → McGet

-- the expiry and the flags behind the data
abbrev pub expiry_of : List ℕ → ℤ
expiry_of v = from_bits (le_value (take 8 (drop (length v - trailer_size) v)))

abbrev pub flags_of : List ℕ → ℕ
flags_of v = le_value (take 4 (drop (length v - 4) v))

-- what a get sends; an item whose time is over is not found
unfoldable pub mc_get : ℕ → Got → McGet
mc_get cur_time got =
    let v : List ℕ = got.value in
    elim got.rc [
      | done ↦
          if ltb (length v) trailer_size
          then missing enodata
          else if is_expired cur_time (expiry_of v)
          then missing enodata
          else item (flags_of v) (take (length v - trailer_size) v)
      | rc ↦ missing rc
    ]

in_time :
    (cur_time n : ℕ) (here gone : McGet)
    → (if is_expired cur_time (pos n) then gone else here)
      ≡ (if n == 0 || leb cur_time n then here else gone)
unfolding is_expired
in_time cur_time n here gone = ground arith

module _ (data_block : List ℕ) (n flags : ℕ) (time_small : n < 2 ^ 63)
    (flags_small : flags < 2 ^ 32) where
  abbrev times : List ℕ
  times = le_bytes 8 (n % 2 ^ 64)

  abbrev stored : List ℕ
  stored = data_block ++ (times ++ le_bytes 4 flags)

  length-stored : length stored ≡ length data_block + 12
  length-stored = omega (
    arith,
    length-append data_block (times ++ le_bytes 4 flags),
    length-append times (le_bytes 4 flags),
    length-le_bytes 8 (n % 2 ^ 64),
    length-le_bytes 4 flags,
  )

  expiry_lem : expiry_of stored ≡ pos n
  unfolding from_bits
  expiry_lem =
      let here : length stored - 12 ≡ length data_block = omega (arith, length-stored) in
      let same : n % 2 ^ 64 ≡ n = mod-eq_of_lt (omega arith) in
      let past : ltb n (2 ^ 63) ≡ true = lt→ltb n (2 ^ 63) time_small in
      let read : le_value (take 8 (drop (length stored - 12) stored)) ≡ n =
        ap (λ k. le_value (take 8 (drop k stored))) here
        ∙ ap (λ l. le_value (take 8 l))
            (drop-front (length data_block) data_block (times ++ le_bytes 4 flags) refl)
        ∙ ap le_value (take-front 8 times (le_bytes 4 flags) (length-le_bytes 8 (n % 2 ^ 64)))
        ∙ le_value-le_bytes 8 (n % 2 ^ 64) (omega (arith, same))
        ∙ same in
      ap from_bits read ∙ rw (from_bits, past) refl

  flags_lem : flags_of stored ≡ flags
  flags_lem =
      let here : length data_block + length times ≡ length stored - 4 =
        omega (arith, length-stored, length-le_bytes 8 (n % 2 ^ 64)) in
      ap (λ l. le_value (take 4 l))
        (drop-two (length stored - 4) data_block times (le_bytes 4 flags) here)
      ∙ ap le_value (take-all 4 (le_bytes 4 flags) (omega (arith, length-le_bytes 4 flags)))
      ∙ le_value-le_bytes 4 flags flags_small

  -- A stored item is read back, until its time is over.
  pub mc_get-item_bytes :
      (cur_time : ℕ)
      → mc_get cur_time (record { rc = done; value = item_bytes data_block (pos n) flags })
        ≡ (if n == 0 || leb cur_time n then item flags data_block else missing enodata)
  unfolding mc_get item_bytes
  mc_get-item_bytes cur_time =
      let long : ltb (length stored) 12 ≡ false = ground (arith, length-stored) in
      let here : length stored - 12 ≡ length data_block = omega (arith, length-stored) in
      let front = take-front (length data_block) data_block (times ++ le_bytes 4 flags) refl in
      rw long (
        ap₂ (λ (x : ℤ) r. if is_expired cur_time x then missing enodata else r) expiry_lem
          (ap₂ item flags_lem (ap (λ k. take k stored) here ∙ front))
        ∙ in_time cur_time n (item flags data_block) (missing enodata))
