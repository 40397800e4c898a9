-- ===== src/Memcache/Tokens.antt =====
-- `try_parse_command` and `tokenize_command` of src/uDepot/net/mc-helpers.cc.
use u_depot.Base.{
  ℕ, suc, ◌-◌, Bool, true, false, ◌&&◌, ◌||◌, not, Option, none, some, List, [], ◌∷◌, ◌++◌, length,
  ltb, ◌==◌, if◌then◌else◌,
}
use u_depot.Memcache.Words.{get_word, gets_word}

-- `s != e`: the scan has begun a token
abbrev pub filled : List ℕ → Bool
filled [] = false
filled (c ∷ cs) = true

-- a token that the scan has begun, if it has bytes
unfoldable pub pending : List ℕ → List (List ℕ)
pending [] = []
pending (c ∷ cs) = (c ∷ cs) ∷ []

-- The tokens, without the empty one that ends them, and what of the line was not scanned.
pub record Tokens : Type 0 where
  pub tokens : List (List ℕ)
  pub unscanned : List ℕ

abbrev pub one_more : List ℕ → Tokens → Tokens
one_more token ts = record ts { tokens = token ∷ ts.tokens }

-- The loop of `tokenize_command`, which may still find `room` tokens; `current` is what it has
-- scanned of the next one. Behind the last token that there is room for it stops.
unfoldable pub token_loop : ℕ → List ℕ → List ℕ → Tokens
token_loop room current [] = record { tokens = pending current; unscanned = [] }
token_loop room current (c ∷ rest) = elim (c == b' ') [
  | false ↦ token_loop room (current ++ (c ∷ [])) rest
  | true ↦ elim (filled current) [
    | false ↦ token_loop room [] rest
    | true ↦ elim (room == 1) [
      | true ↦ record { tokens = current ∷ []; unscanned = rest }
      | false ↦ one_more current (token_loop (room - 1) [] rest)
    ]
  ]
]

unfoldable pub tokenize_command : List ℕ → ℕ → Tokens
tokenize_command command max_nr = token_loop (max_nr - 1) [] command

-- the number that the code returns: the tokens and the one that ends them
abbrev pub ntokens : Tokens → ℕ
ntokens ts = suc (length ts.tokens)

-- `memchr`: what is before the byte and what is behind it
unfoldable pub split_at : ℕ → List ℕ → Option (List ℕ × List ℕ)
split_at c [] = none
split_at c (b ∷ bs) = elim (b == c) [
  | true ↦ some ([], bs)
  | false ↦ elim (split_at c bs) [ none ↦ none | some (front, behind) ↦ some (b ∷ front, behind) ]
]

-- a carriage return that ends the line is dropped, if it is not all of it
unfoldable pub without_cr : List ℕ → List ℕ
without_cr [] = []
without_cr (c ∷ []) = c ∷ []
without_cr (c ∷ d ∷ []) = if d == b'\r' then c ∷ [] else c ∷ d ∷ []
without_cr (c ∷ d ∷ e ∷ rest) = c ∷ without_cr (d ∷ e ∷ rest)

unfoldable pub skip_spaces : List ℕ → List ℕ
skip_spaces [] = []
skip_spaces (c ∷ rest) = elim (c == b' ') [ true ↦ skip_spaces rest | false ↦ c ∷ rest ]

unfoldable pub starts_with : List ℕ → List ℕ → Bool
starts_with [] text = true
starts_with (w ∷ word) [] = false
starts_with (w ∷ word) (c ∷ text) = w == c && starts_with word text

-- the line and what was received behind it, a wait for more, or an invalid command
pub data Received : Type 0 where
  line : List ℕ → List ℕ → Received
  more : Received
  invalid : Received

-- a line that does not end within its first bytes has to be a large get
unfoldable pub unended : List ℕ → Received
unended buff =
    let text = skip_spaces buff in
    if ltb 1024 (length buff)
      && (ltb 100 (length buff - length text)
          || not (
              starts_with (get_word ++ (b' ' ∷ [])) text
              || starts_with (gets_word ++ (b' ' ∷ [])) text))
    then invalid
    else more

-- `buff` holds what was received, from the start of the command
unfoldable pub try_parse_command : List ℕ → Received
try_parse_command buff = elim (split_at b'\n' buff) [
  | none ↦ unended buff
  | some (front, behind) ↦ line (without_cr front) behind
]
