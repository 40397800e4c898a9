-- ===== src/Memcache/ParseBounds.antt =====
-- What `parse` makes of the lines of commands.
use u_depot.Base.{
  ℕ, ◌-◌, ◌^◌, ◌≤◌, ◌≡◌, refl, inl, inr, true, false, List, [], length, get_or, ltb, leb→le,
  Bool-cases, Option-cases, arith,
}
use u_depot.Memcache.{ℤ, pos, negsuc, max_key_length}
use u_depot.Memcache.Numbers.{Libc, safe_strtoul, safe_strtoull, safe_strtol, to_s32}
use u_depot.Memcache.Parse.{
  Cmd, key_of, begin_arguments, is_vlen, with_vlen, storage_numbers, parse_storage_arguments,
  parse_arithmetic_arguments, is_storage, is_arithmetic, is_inval, parse_arguments, parse,
}

-- A request to store is one with a key and a size in their bounds.
abbrev IsBounded : Cmd → Type 0
IsBounded c =
    is_storage c.req ≡ true
    → (length (key_of c) ≤ max_key_length) × ((n : ℕ) × (c.vlen ≡ pos n) × (n ≤ 2 ^ 31 - 3))

is_vlen-pos : (v : ℤ) → is_vlen v ≡ true → (n : ℕ) × (v ≡ pos n) × (n ≤ 2 ^ 31 - 3)
unfolding is_vlen
is_vlen-pos (pos n) e = (n, refl, leb→le n (2 ^ 31 - 3) e)
is_vlen-pos (negsuc n) e = absurd (cc)

with_vlen-IsBounded :
    (v : ℤ) (c : Cmd) → length (key_of c) ≤ max_key_length → IsBounded (with_vlen v c)
unfolding with_vlen is_storage
with_vlen-IsBounded v c short = elim (Bool-cases (is_vlen v)) [
  | inl fine ↦ rw (with_vlen, fine) (λ _. (short, is_vlen-pos v fine))
  | inr bad ↦ rw (with_vlen, bad) (λ e. absurd (cc))
]

storage_numbers-IsBounded :
    (libc : Libc) (cur_time : ℕ) (c : Cmd)
    → length (key_of c) ≤ max_key_length
    → IsBounded (storage_numbers libc cur_time c)
unfolding storage_numbers is_storage
storage_numbers-IsBounded libc cur_time c short =
    elim (Option-cases (safe_strtoul libc (get_or c.tokens 2 []))) [
      | inl no_flags ↦ rw (storage_numbers, no_flags) (λ e. absurd (cc))
      | inr (flags, f) ↦ elim (Option-cases (safe_strtol libc (get_or c.tokens 3 []))) [
        | inl no_expiry ↦ rw (storage_numbers, f, no_expiry) (λ e. absurd (cc))
        | inr (expiry, x) ↦ elim (Option-cases (safe_strtol libc (get_or c.tokens 4 []))) [
          | inl no_vlen ↦ rw (storage_numbers, f, x, no_vlen) (λ e. absurd (cc))
          | inr (vlen, v) ↦
              rw (storage_numbers, f, x, v) (with_vlen-IsBounded (to_s32 vlen) _ short)
        ]
      ]
    ]

parse_storage_arguments-IsBounded :
    (libc : Libc) (cur_time : ℕ) (c : Cmd) → IsBounded (parse_storage_arguments libc cur_time c)
unfolding parse_storage_arguments begin_arguments is_storage
parse_storage_arguments-IsBounded libc cur_time c =
    elim (Bool-cases (ltb max_key_length (length (key_of c)))) [
      | inl long ↦ rw (parse_storage_arguments, long) (λ e. absurd (cc))
      | inr short ↦
          rw (parse_storage_arguments, short)
            (storage_numbers-IsBounded libc cur_time (begin_arguments c) (ground (arith, short)))
    ]

parse_arithmetic_arguments-IsBounded :
    (libc : Libc) (c : Cmd)
    → is_storage c.req ≡ false
    → IsBounded (parse_arithmetic_arguments libc c)
unfolding parse_arithmetic_arguments begin_arguments is_storage
parse_arithmetic_arguments-IsBounded libc c other =
    elim (Bool-cases (ltb max_key_length (length (key_of c)))) [
      | inl long ↦ rw (parse_arithmetic_arguments, long) (λ e. absurd (cc))
      | inr short ↦ elim (Option-cases (safe_strtoull libc (get_or c.tokens 2 []))) [
        | inl no_delta ↦ rw (parse_arithmetic_arguments, short, no_delta) (λ e. absurd (cc))
        | inr (delta, d) ↦ rw (parse_arithmetic_arguments, short, d) (λ e. absurd (cc))
      ]
    ]

parse_arguments-IsBounded :
    (libc : Libc) (cur_time : ℕ) (c : Cmd) → IsBounded (parse_arguments libc cur_time c)
unfolding parse_arguments
parse_arguments-IsBounded libc cur_time c = elim (Bool-cases (is_storage c.req)) [
  | inl store ↦ rw (parse_arguments, store) (parse_storage_arguments-IsBounded libc cur_time c)
  | inr other ↦ elim (Bool-cases (is_arithmetic c.req)) [
    | inl counts ↦
        rw (parse_arguments, other, counts) (parse_arithmetic_arguments-IsBounded libc c other)
    | inr rest ↦ elim (Bool-cases (is_inval c.req)) [
      | inl bad ↦ rw (parse_arguments, other, rest, bad) (λ e. absurd (cc))
      | inr fine ↦ rw (parse_arguments, other, rest, fine) (λ e. absurd (cc))
    ]
  ]
]

-- Whatever the line and the conversions of the C library, when `parse` gives a storage request,
-- its key has at most 250 bytes and its size is a number from 0 to INT_MAX - 2.
pub parse-IsBounded :
    (libc : Libc) (cur_time : ℕ) (line : List ℕ)
    → is_storage (parse libc cur_time line).req ≡ true
    → (length (key_of (parse libc cur_time line)) ≤ max_key_length)
      × ((n : ℕ) × ((parse libc cur_time line).vlen ≡ pos n) × (n ≤ 2 ^ 31 - 3))
unfolding parse
parse-IsBounded libc cur_time line = parse_arguments-IsBounded libc cur_time _
