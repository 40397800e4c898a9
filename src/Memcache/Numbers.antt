-- ===== src/Memcache/Numbers.antt =====
-- The numbers of src/uDepot/net/mc-helpers.cc: `safe_strtoul` and its kin, the expiry times and the
-- arithmetic of `incr` and `decr`. The conversions of the C library are given.
use u_depot.Base.{
  ℕ, ◌+◌, ◌-◌, ◌%◌, ◌^◌, Bool, true, false, ◌&&◌, ◌||◌, not, Option, none, some, List, [], ◌∷◌,
  length, ltb, leb, ◌==◌, if◌then◌else◌,
}
use u_depot.Memcache.{ℤ, pos, negsuc, Req, req_incr, realtime_maxdelta}

-- What `strtoul` and its kin give: the number, what stands behind it, and whether it is out of
-- the range. A text without a number is left whole.
pub record Converted (N : Type 0) : Type 0 where
  pub number : N
  pub behind : List ℕ
  pub out_of_range : Bool

pub record Libc : Type 0 where
  pub strtoul : List ℕ → Converted ℕ
  pub strtol : List ℕ → Converted ℤ
  pub isspace : ℕ → Bool

unfoldable pub has_byte : ℕ → List ℕ → Bool
has_byte c [] = false
has_byte c (b ∷ bs) = b == c || has_byte c bs

-- The number ends the text or stands before white space.
unfoldable pub ends_well : Libc → List ℕ → Bool
ends_well libc [] = true
ends_well libc (c ∷ rest) = libc.isspace c

-- there is a number, it is in the range, and it ends well
unfoldable pub is_converted : {N : Type 0} → Libc → List ℕ → Converted N → Bool
is_converted libc text r =
    not (r.out_of_range || length r.behind == length text) && ends_well libc r.behind

-- A large number may be a negative one that was wrapped around.
unfoldable pub safe_strtoull : Libc → List ℕ → Option ℕ
safe_strtoull libc text =
    let r = libc.strtoul text in
    if is_converted libc text r && not (leb (2 ^ 63) r.number && has_byte b'-' text)
    then some r.number
    else none

-- The 64-bit number is cut to 32 bits.
unfoldable pub safe_strtoul : Libc → List ℕ → Option ℕ
safe_strtoul libc text =
    let r = libc.strtoul text in
    if is_converted libc text r && not (leb (2 ^ 63) r.number && has_byte b'-' text)
    then some (r.number % 2 ^ 32)
    else none

unfoldable pub safe_strtol : Libc → List ℕ → Option ℤ
safe_strtol libc text =
    let r = libc.strtol text in if is_converted libc text r then some r.number else none

-- a time in the past for a negative number, a difference up to thirty days, or a time
unfoldable pub sanitize_exp_time : ℕ → ℤ → ℤ
sanitize_exp_time cur_time (negsuc n) = if cur_time == 0 then pos 1 else pos (cur_time - 1)
sanitize_exp_time cur_time (pos n) =
    if not (n == 0) && leb n realtime_maxdelta then pos (n + cur_time) else pos n

-- false is EINVAL
unfoldable pub verify_exp_time : ℕ → ℤ → Bool
verify_exp_time cur_time (negsuc n) = false
verify_exp_time cur_time (pos n) = not (not (n == 0) && leb n cur_time)

-- the test of an item, `0 != expiry_ && expiry_ < cur_time`
unfoldable pub is_expired : ℕ → ℤ → Bool
is_expired cur_time (negsuc n) = true
is_expired cur_time (pos n) = not (n == 0) && ltb n cur_time

-- `(s32) vlen`, as a u32 and its sign
abbrev pub low32_of : ℤ → ℕ
low32_of (pos n) = n % 2 ^ 32
low32_of (negsuc n) = 2 ^ 32 - 1 - n % 2 ^ 32

unfoldable pub to_s32 : ℤ → ℤ
to_s32 v = let w = low32_of v in if ltb w (2 ^ 31) then pos w else negsuc (2 ^ 32 - 1 - w)

-- the new number of `handle_arithmetic_cmd`
unfoldable pub apply_arithmetic : Req → (num oldval : ℕ) → ℕ
apply_arithmetic req_incr num oldval = (num + oldval) % 2 ^ 64
apply_arithmetic other num oldval = if ltb oldval num then 0 else oldval - num
