-- ===== src/Memcache/ParseJoin.antt =====
-- The command lines that a client writes, parsed.
use u_depot.Base.{
  ℕ, suc, ◌-◌, ◌%◌, ◌^◌, ◌≤◌, ◌<◌, ◌≡◌, refl, ap, ◌∙◌, inl, inr, Bool, true, false, ◌&&◌, not, some,
  List, [], ◌∷◌, length, get_or, ltb, leb, le→leb, lt→ltb, ◌==◌, Bool-cases, arith,
}
use native.Mathlib.Nat.{mod-eq_of_lt}
use u_depot.Memcache.{ℤ, pos, max_tokens, max_key_length, Req, rsp_inval, rsp_client_error_format}
use u_depot.Memcache.Words.{noreply_word}
use u_depot.Memcache.Tokens.{Tokens, tokenize_command, ntokens, starts_with}
use u_depot.Memcache.TokensJoin.{join, all_words, tokenize_command-join}
use u_depot.Memcache.Numbers.{Libc, safe_strtoul, safe_strtol, sanitize_exp_time, to_s32}
use u_depot.Memcache.Parse.{
  Cmd, new_cmd, command_req, begin_arguments, is_vlen, with_vlen, storage_numbers,
  parse_storage_arguments, is_storage, parse_arguments, c_string, parse,
}

-- no byte of the line is zero
abbrev pub no_zero : List ℕ → Bool
no_zero [] = true
no_zero (c ∷ cs) = not (c == 0) && no_zero cs

c_string_lem : (text : List ℕ) → no_zero text ≡ true → c_string text ≡ text
unfolding c_string
c_string_lem [] ok = refl
c_string_lem (c ∷ cs) ok = elim (Bool-cases (c == 0)) [
  | inl zero_byte ↦ absurd (ground (arith, zero_byte, ok))
  | inr other ↦ rw (c_string, other) (ap (λ l. c ∷ l) (c_string_lem cs (ground (arith, other, ok))))
]

-- the command that a line of the words has before its arguments are read
abbrev pub started : List (List ℕ) → Cmd
started ws = record new_cmd { req = command_req (suc (length ws)) (get_or ws 0 []); tokens = ws }

parse-join :
    (libc : Libc) (cur_time : ℕ) (ws : List (List ℕ))
    → all_words ws ≡ true
    → length ws < max_tokens
    → no_zero (join ws) ≡ true
    → parse libc cur_time (join ws) ≡ parse_arguments libc cur_time (started ws)
unfolding parse
parse-join libc cur_time ws words few clean =
    let scanned =
      ap (λ l. tokenize_command l max_tokens) (c_string_lem (join ws) clean)
      ∙ tokenize_command-join ws max_tokens words few in
    ap
      (λ (ts : Tokens). parse_arguments libc cur_time (record new_cmd {
        req = command_req (ntokens ts) (get_or ts.tokens 0 []);
        tokens = ts.tokens;
      }))
      scanned

to_s32-small : (n : ℕ) → n ≤ 2 ^ 31 - 3 → to_s32 (pos n) ≡ pos n
unfolding to_s32
to_s32-small n small =
    let e : n % 2 ^ 32 ≡ n = mod-eq_of_lt (omega arith) in
    let lt : ltb n (2 ^ 31) ≡ true = lt→ltb n (2 ^ 31) (omega arith) in rw (to_s32, e, lt) refl

-- A line of a storage command, of a key of at most 250 bytes, the flags, the expiry time and a
-- size of at most INT_MAX - 2, in words without zero bytes, of which the last is no beginning
-- of `noreply`, is parsed to its request with the flags, the sanitized time, the size and the
-- words.
pub parse-storage_line :
    (libc : Libc) (cur_time : ℕ) (word key f x n : List ℕ) (req : Req) (flags : ℕ) (expiry : ℤ)
    (vlen : ℕ)
    → all_words (word ∷ key ∷ f ∷ x ∷ n ∷ []) ≡ true
    → no_zero (join (word ∷ key ∷ f ∷ x ∷ n ∷ [])) ≡ true
    → command_req 6 word ≡ req
    → is_storage req ≡ true
    → length key ≤ max_key_length
    → safe_strtoul libc f ≡ some flags
    → safe_strtol libc x ≡ some expiry
    → safe_strtol libc n ≡ some (pos vlen)
    → vlen ≤ 2 ^ 31 - 3
    → starts_with n noreply_word ≡ false
    → parse libc cur_time (join (word ∷ key ∷ f ∷ x ∷ n ∷ [])) ≡ record {
      req = req;
      rsp = rsp_inval;
      flags = flags;
      vlen = pos vlen;
      expiry = sanitize_exp_time cur_time expiry;
      num = 0;
      noreply = false;
      tokens = word ∷ key ∷ f ∷ x ∷ n ∷ [];
    }
unfolding parse_arguments parse_storage_arguments begin_arguments storage_numbers with_vlen is_vlen
parse-storage_line libc cur_time word key f x n req flags expiry vlen words clean named store short
      fl ex vl small answered =
    let ws = word ∷ key ∷ f ∷ x ∷ n ∷ [] in
    let c : Cmd = record new_cmd { req = req; tokens = ws } in
    let not_long : ltb max_key_length (length key) ≡ false = ground (arith, short) in
    let kept = to_s32-small vlen small in
    let fits : leb vlen (2 ^ 31 - 1 - 2) ≡ true = le→leb vlen _ (omega arith) in
    let begun : begin_arguments c ≡ record c { rsp = rsp_client_error_format } =
      rw (begin_arguments, answered) refl in
    parse-join libc cur_time ws words (omega arith) clean
    ∙ ap (λ r. parse_arguments libc cur_time (record new_cmd { req = r; tokens = ws })) named
    ∙ rw (parse_arguments, store, parse_storage_arguments, not_long)
        (ap (storage_numbers libc cur_time) begun
          ∙ rw (storage_numbers, fl, ex, vl, kept, with_vlen, is_vlen, fits) refl)
