-- ===== src/Memcache/Parse.antt =====
-- `parse` of src/uDepot/net/mc-helpers.cc, with `parse_storage_arguments` and
-- `parse_arithmetic_arguments`.
use u_depot.Base.{
  ℕ, ◌-◌, ◌^◌, Bool, true, false, ◌&&◌, ◌||◌, none, some, List, [], ◌∷◌, length, get_or, ltb, leb,
  ◌==◌, if◌then◌else◌,
}
use u_depot.Store.Lookup.{equal_bytes}
use u_depot.Memcache.{
  ℤ, pos, negsuc, max_tokens, max_key_length, Req, req_inval, req_get, req_gets, req_set, req_add,
  req_replace, req_append, req_prepend, req_cas, req_incr, req_decr, req_del, req_touch,
  req_flush_all, req_quit, req_watch, req_lru_crawler, req_cache_memlimit, req_verbosity, req_slabs,
  req_stats, req_version, Rsp, rsp_inval, rsp_error, rsp_client_error_format,
}
use u_depot.Memcache.Words.{
  get_word, gets_word, bget_word, add_word, set_word, replace_word, prepend_word, append_word,
  cas_word, incr_word, decr_word, delete_word, touch_word, stats_word, flush_all_word, version_word,
  quit_word, shutdown_word, slabs_word, lru_crawler_word, watch_word, cache_memlimit_word,
  verbosity_word, noreply_word,
}
use u_depot.Memcache.Tokens.{Tokens, tokenize_command, ntokens, starts_with}
use u_depot.Memcache.Numbers.{
  Libc, safe_strtoul, safe_strtoull, safe_strtol, sanitize_exp_time, to_s32,
}

-- struct cmd
pub record Cmd : Type 0 where
  pub req : Req
  pub rsp : Rsp
  pub flags : ℕ
  pub vlen : ℤ
  pub expiry : ℤ
  pub num : ℕ
  pub noreply : Bool
  pub tokens : List (List ℕ)

-- cmd::cmd
abbrev pub new_cmd : Cmd
new_cmd = record {
  req = req_inval;
  rsp = rsp_inval;
  flags = 0;
  vlen = pos 0;
  expiry = pos 0;
  num = 0;
  noreply = false;
  tokens = [];
}

-- the request of the command `w` in a line of `n` tokens
unfoldable pub command_req : ℕ → List ℕ → Req
command_req n w =
    if leb 3 n && equal_bytes w get_word
    then req_get
    else if leb 3 n && equal_bytes w gets_word
    then req_gets
    else if leb 3 n && equal_bytes w bget_word
    then req_get
    else if (n == 6 || n == 7) && equal_bytes w add_word
    then req_add
    else if (n == 6 || n == 7) && equal_bytes w set_word
    then req_set
    else if (n == 6 || n == 7) && equal_bytes w replace_word
    then req_replace
    else if (n == 6 || n == 7) && equal_bytes w prepend_word
    then req_prepend
    else if (n == 6 || n == 7) && equal_bytes w append_word
    then req_append
    else if (n == 7 || n == 8) && equal_bytes w cas_word
    then req_cas
    else if (n == 4 || n == 5) && equal_bytes w incr_word
    then req_incr
    else if (n == 4 || n == 5) && equal_bytes w decr_word
    then req_decr
    else if leb 3 n && leb n 5 && equal_bytes w delete_word
    then req_del
    else if (n == 4 || n == 5) && equal_bytes w touch_word
    then req_touch
    else if leb 2 n && equal_bytes w stats_word
    then req_stats
    else if leb 2 n && leb n 4 && equal_bytes w flush_all_word
    then req_flush_all
    else if n == 2 && equal_bytes w version_word
    then req_version
    else if n == 2 && equal_bytes w quit_word
    then req_quit
    else if n == 2 && equal_bytes w shutdown_word
    then req_quit
    else if ltb 1 n && equal_bytes w slabs_word
    then req_slabs
    else if ltb 1 n && equal_bytes w lru_crawler_word
    then req_lru_crawler
    else if ltb 1 n && equal_bytes w watch_word
    then req_watch
    else if (n == 3 || n == 4) && equal_bytes w cache_memlimit_word
    then req_cache_memlimit
    else if (n == 3 || n == 4) && equal_bytes w verbosity_word
    then req_verbosity
    else req_inval

-- a token by its place
abbrev pub token_at : Cmd → ℕ → List ℕ
token_at c i = get_or c.tokens i []

-- KEY_TOKEN
abbrev pub key_of : Cmd → List ℕ
key_of c = token_at c 1

-- Both begin with a format error, and look at the last token for `noreply`: `strncmp` takes any
-- beginning of that word for it.
unfoldable pub begin_arguments : Cmd → Cmd
begin_arguments c = record c {
  rsp = rsp_client_error_format;
  noreply = starts_with (token_at c (length c.tokens - 1)) noreply_word || c.noreply;
}

-- 0 <= vlen <= INT_MAX - 2
unfoldable pub is_vlen : ℤ → Bool
is_vlen (negsuc n) = false
is_vlen (pos n) = leb n (2 ^ 31 - 1 - 2)

-- the numbers are read; `rsp` is left to the handler
unfoldable pub with_vlen : ℤ → Cmd → Cmd
with_vlen vlen c =
    if is_vlen vlen
    then record c { vlen = vlen; rsp = rsp_inval }
    else record c { vlen = vlen; req = req_inval }

unfoldable pub storage_numbers : Libc → ℕ → Cmd → Cmd
storage_numbers libc cur_time c = elim (safe_strtoul libc (token_at c 2)) [
  | none ↦ record c { req = req_inval; flags = 0 }
  | some flags ↦ elim (safe_strtol libc (token_at c 3)) [
    | none ↦ record c { req = req_inval; flags = flags; expiry = pos 0 }
    | some expiry ↦ elim (safe_strtol libc (token_at c 4)) [
      | none ↦ record c { req = req_inval; flags = flags; expiry = expiry }
      | some vlen ↦
          with_vlen (to_s32 vlen)
            (record c { flags = flags; expiry = sanitize_exp_time cur_time expiry })
    ]
  ]
]

unfoldable pub parse_storage_arguments : Libc → ℕ → Cmd → Cmd
parse_storage_arguments libc cur_time c =
    let c' : Cmd = begin_arguments c in
    elim (ltb max_key_length (length (key_of c))) [
      | true ↦ record c' { req = req_inval }
      | false ↦ storage_numbers libc cur_time c'
    ]

unfoldable pub parse_arithmetic_arguments : Libc → Cmd → Cmd
parse_arithmetic_arguments libc c =
    let c' : Cmd = begin_arguments c in
    elim (ltb max_key_length (length (key_of c))) [
      | true ↦ record c' { req = req_inval }
      | false ↦ elim (safe_strtoull libc (token_at c 2)) [
        | none ↦ record c' { req = req_inval }
        | some delta ↦ record c' { num = delta; rsp = rsp_inval }
      ]
    ]

unfoldable pub is_storage : Req → Bool
is_storage req_add = true
is_storage req_set = true
is_storage req_replace = true
is_storage req_prepend = true
is_storage req_append = true
is_storage other = false

unfoldable pub is_arithmetic : Req → Bool
is_arithmetic req_incr = true
is_arithmetic req_decr = true
is_arithmetic other = false

unfoldable pub is_inval : Req → Bool
is_inval req_inval = true
is_inval other = false

-- the arguments of a command whose request is known
unfoldable pub parse_arguments : Libc → ℕ → Cmd → Cmd
parse_arguments libc cur_time c = elim (is_storage c.req) [
  | true ↦ parse_storage_arguments libc cur_time c
  | false ↦ elim (is_arithmetic c.req) [
    | true ↦ parse_arithmetic_arguments libc c
    | false ↦ elim (is_inval c.req) [ true ↦ record c { rsp = rsp_error } | false ↦ c ]
  ]
]

-- the text before the first byte of zero
unfoldable pub c_string : List ℕ → List ℕ
c_string [] = []
c_string (c ∷ cs) = elim (c == 0) [ true ↦ [] | false ↦ c ∷ c_string cs ]

unfoldable pub parse : Libc → ℕ → List ℕ → Cmd
parse libc cur_time line =
    let ts : Tokens = tokenize_command (c_string line) max_tokens in
    let req = command_req (ntokens ts) (get_or ts.tokens 0 []) in
    parse_arguments libc cur_time (record new_cmd { req = req; tokens = ts.tokens })
