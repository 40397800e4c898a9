-- ===== src/Memcache/Tests.antt =====
-- Small commands and items, with what the theorems say of them.
use u_depot.Base.{ℕ, ◌-◌, ◌^◌, ◌≤◌, ◌≡◌, refl, ap, true, false, List, [], ◌∷◌, ◌++◌, length, arith}
use u_depot.Store.Lookup.{equal_bytes}
use u_depot.Memcache.{pos, max_key_length, req_set, rsp_inval}
use u_depot.Memcache.Words.{set_word}
use u_depot.Memcache.Tokens.{tokenize_command, ntokens, starts_with}
use u_depot.Memcache.TokensJoin.{
  join, all_words, squeeze, flatten, tokenize_command-join, tokenize_command_lem,
}
use u_depot.Memcache.Numbers.{
  Libc, safe_strtoul, safe_strtol, is_converted, ends_well, sanitize_exp_time,
}
use u_depot.Memcache.Parse.{Cmd, parse, key_of, is_storage, command_req}
use u_depot.Memcache.ParseBounds.{parse-IsBounded}
use u_depot.Memcache.ParseJoin.{parse-storage_line}
use u_depot.Memcache.Item.{item_bytes}

abbrev item_value : List ℕ
item_value = item_bytes (7 ∷ 8 ∷ []) (pos 0) 9

-- "set k 1 0 5"
abbrev one : List ℕ
one = b'1' ∷ []

abbrev nought : List ℕ
nought = b'0' ∷ []

abbrev five : List ℕ
five = b'5' ∷ []

abbrev k : List ℕ
k = b'k' ∷ []

abbrev set_line : List (List ℕ)
set_line = set_word ∷ k ∷ one ∷ nought ∷ five ∷ []

-- texts of one digit
abbrev digit : List ℕ → ℕ
digit [] = 0
digit (c ∷ cs) = c - b'0'

libc : Libc
libc = record {
  strtoul = λ text. record { number = digit text; behind = []; out_of_range = false };
  strtol = λ text. record { number = pos (digit text); behind = []; out_of_range = false };
  isspace = λ _. false;
}

tokenize_command-join_example :
    tokenize_command (join set_line) 512 ≡ record { tokens = set_line; unscanned = [] }
tokenize_command-join_example = tokenize_command-join set_line 512 refl (omega arith)

tokenize_command_lem_example :
    (all_words (tokenize_command (join set_line) 3).tokens ≡ true)
    × (flatten (tokenize_command (join set_line) 3).tokens
          ++ squeeze (tokenize_command (join set_line) 3).unscanned
        ≡ squeeze (join set_line))
    × (ntokens (tokenize_command (join set_line) 3) ≤ 3)
tokenize_command_lem_example = tokenize_command_lem (join set_line) 3 (omega arith)

set_line-parsed : parse libc 100 (join set_line) ≡ record {
  req = req_set;
  rsp = rsp_inval;
  flags = 1;
  vlen = pos 5;
  expiry = sanitize_exp_time 100 (pos 0);
  num = 0;
  noreply = false;
  tokens = set_line;
}
unfolding command_req equal_bytes is_storage safe_strtoul safe_strtol is_converted ends_well libc
    starts_with
set_line-parsed =
    parse-storage_line libc 100 set_word k one nought five req_set 1 (pos 0) 5 refl refl refl refl
      (omega arith) refl refl refl (omega arith) refl

parse-storage_line_example : parse libc 100 (join set_line) ≡ record {
  req = req_set;
  rsp = rsp_inval;
  flags = 1;
  vlen = pos 5;
  expiry = sanitize_exp_time 100 (pos 0);
  num = 0;
  noreply = false;
  tokens = set_line;
}
unfolding command_req equal_bytes is_storage safe_strtoul safe_strtol is_converted ends_well libc
    starts_with
parse-storage_line_example =
    parse-storage_line libc 100 set_word k one nought five req_set 1 (pos 0) 5 refl refl refl refl
      (omega arith) refl refl refl (omega arith) refl

set_line-is_storage : is_storage (parse libc 100 (join set_line)).req ≡ true
unfolding is_storage
set_line-is_storage = ap (λ (c : Cmd). is_storage c.req) set_line-parsed

parse-IsBounded_example :
    (length (key_of (parse libc 100 (join set_line))) ≤ max_key_length)
    × ((n : ℕ) × ((parse libc 100 (join set_line)).vlen ≡ pos n) × (n ≤ 2 ^ 31 - 3))
parse-IsBounded_example = parse-IsBounded libc 100 (join set_line) set_line-is_storage
