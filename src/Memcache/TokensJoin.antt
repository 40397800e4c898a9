-- ===== src/Memcache/TokensJoin.antt =====
-- What the tokens of a command are.
use u_depot.Base.{
  ℕ, ◌-◌, ◌≤◌, ◌<◌, ◌≡◌, refl, sym, ap, subst, ◌∙◌, inl, inr, Bool, true, false, ◌&&◌, not, List,
  [], ◌∷◌, ◌++◌, length, append_assoc, append_nil, ◌==◌, if◌then◌else◌, Bool-cases, arith,
}
use u_depot.Memcache.Tokens.{
  Tokens, filled, pending, one_more, token_loop, tokenize_command, ntokens,
}

abbrev no_space : List ℕ → Bool
no_space [] = true
no_space (c ∷ cs) = not (c == b' ') && no_space cs

-- A word is not empty and has no space.
abbrev is_word : List ℕ → Bool
is_word w = filled w && no_space w

abbrev pub all_words : List (List ℕ) → Bool
all_words [] = true
all_words (w ∷ ws) = is_word w && all_words ws

-- a line with the words, one space between each two
abbrev pub join : List (List ℕ) → List ℕ
join [] = []
join (w ∷ []) = w
join (w ∷ v ∷ vs) = w ++ (b' ' ∷ join (v ∷ vs))

-- a line without its spaces
abbrev pub squeeze : List ℕ → List ℕ
squeeze [] = []
squeeze (c ∷ cs) = if c == b' ' then squeeze cs else c ∷ squeeze cs

abbrev pub flatten : List (List ℕ) → List ℕ
flatten [] = []
flatten (w ∷ ws) = w ++ flatten ws

and_true : (a b : Bool) → (a && b) ≡ true → (a ≡ true) × (b ≡ true)
and_true true true e = (refl, refl)
and_true true false e = absurd (cc)
and_true false b e = absurd (cc)

scan_word :
    (room : ℕ) (current w rest : List ℕ)
    → no_space w ≡ true
    → token_loop room current (w ++ rest) ≡ token_loop room (current ++ w) rest
unfolding token_loop
scan_word room current [] rest ok = ap (λ l. token_loop room l rest) (sym (append_nil current))
scan_word room current (c ∷ cs) rest ok =
    let (here, on) = and_true (not (c == b' ')) (no_space cs) ok in
    let no : (c == b' ') ≡ false = ground (arith, here) in
    rw (token_loop, no)
      (scan_word room (current ++ (c ∷ [])) cs rest on
        ∙ ap (λ l. token_loop room l rest) (append_assoc current (c ∷ []) cs))

pending-word : (w : List ℕ) → is_word w ≡ true → pending w ≡ w ∷ []
unfolding pending
pending-word [] ok = absurd (cc)
pending-word (c ∷ cs) ok = refl

token_loop-join :
    (ws : List (List ℕ)) (room : ℕ)
    → all_words ws ≡ true
    → length ws ≤ room
    → token_loop room [] (join ws) ≡ record { tokens = ws; unscanned = [] }
unfolding token_loop pending
token_loop-join [] room ok fits = refl
token_loop-join (w ∷ []) room ok fits =
    let (word, _) = and_true (is_word w) true ok in
    let (_, clear) = and_true (filled w) (no_space w) word in
    ap (token_loop room []) (sym (append_nil w))
    ∙ scan_word room [] w [] clear
    ∙ ap (λ l. record { tokens = l; unscanned = [] }) (pending-word w word)
token_loop-join (w ∷ v ∷ vs) room ok fits =
    let (word, others) = and_true (is_word w) (all_words (v ∷ vs)) ok in
    let (full, clear) = and_true (filled w) (no_space w) word in
    let last : (room == 1) ≡ false = ground (arith, fits) in
    scan_word room [] w (b' ' ∷ join (v ∷ vs)) clear
    ∙ rw (token_loop, full, last)
        (ap (one_more w) (token_loop-join (v ∷ vs) (room - 1) others (omega arith)))

-- The tokens of fewer words than there is room for, joined by one space each, are the words.
pub tokenize_command-join :
    (ws : List (List ℕ)) (max_nr : ℕ)
    → all_words ws ≡ true
    → length ws < max_nr
    → tokenize_command (join ws) max_nr ≡ record { tokens = ws; unscanned = [] }
unfolding tokenize_command
tokenize_command-join ws max_nr ok fits = token_loop-join ws (max_nr - 1) ok (omega arith)

-- What is known of the tokens that the loop finds behind a part of a token.
record IsScan (room : ℕ) (current command : List ℕ) (ts : Tokens) : Type 0 where
  words : all_words ts.tokens ≡ true
  kept : flatten ts.tokens ++ squeeze ts.unscanned ≡ current ++ squeeze command
  few : length ts.tokens ≤ room

pending-IsScan :
    (room : ℕ) (current : List ℕ)
    → 1 ≤ room
    → no_space current ≡ true
    → IsScan room current [] (record { tokens = pending current; unscanned = [] })
unfolding pending
pending-IsScan room [] some_room clear = record { words = refl; kept = refl; few = omega arith }
pending-IsScan room (c ∷ cs) some_room clear = record {
  words = rw clear refl;
  kept = ap (λ l. l ++ []) (append_nil (c ∷ cs));
  few = omega arith;
}

no_space-snoc :
    (current : List ℕ) (c : ℕ)
    → no_space current ≡ true
    → (c == b' ') ≡ false
    → no_space (current ++ (c ∷ [])) ≡ true
no_space-snoc [] c clear e = rw e refl
no_space-snoc (d ∷ ds) c clear e =
    let (here, on) = and_true (not (d == b' ')) (no_space ds) clear in
    rw here (no_space-snoc ds c on e)

-- A space behind a token.
space-IsScan :
    (room : ℕ) (current rest : List ℕ)
    → is_word current ≡ true
    → 1 ≤ room
    → ((room == 1) ≡ false → IsScan (room - 1) [] rest (token_loop (room - 1) [] rest))
    → IsScan room current (b' ' ∷ rest) (token_loop room current (b' ' ∷ rest))
unfolding token_loop
space-IsScan room current rest word some_room on =
    let (full, clear) = and_true (filled current) (no_space current) word in
    elim (Bool-cases (room == 1)) [
      | inl last ↦
          rw (token_loop, full, last)
            (record {
              words = rw word refl;
              kept = ap (λ l. l ++ squeeze rest) (append_nil current);
              few = some_room;
            })
      | inr others ↦
          let ih = on others in
          rw (token_loop, full, others)
            (record {
              words = rw word ih.words;
              kept = append_assoc current _ _ ∙ ap (λ l. current ++ l) ih.kept;
              few = ground (arith, ih.few, others);
            })
    ]

-- A space behind a token, or behind none.
after_space :
    (room : ℕ) (current rest : List ℕ)
    → no_space current ≡ true
    → 1 ≤ room
    → IsScan room [] rest (token_loop room [] rest)
    → ((room == 1) ≡ false → IsScan (room - 1) [] rest (token_loop (room - 1) [] rest))
    → IsScan room current (b' ' ∷ rest) (token_loop room current (b' ' ∷ rest))
unfolding token_loop
after_space room [] rest clear some_room ih on = record {
  words = ih.words;
  kept = ih.kept;
  few = ih.few;
}
after_space room (c ∷ cs) rest clear some_room ih on =
    space-IsScan room (c ∷ cs) rest clear some_room on

token_loop-IsScan :
    (command : List ℕ) (room : ℕ) (current : List ℕ)
    → 1 ≤ room
    → no_space current ≡ true
    → IsScan room current command (token_loop room current command)
unfolding token_loop
token_loop-IsScan [] room current some_room clear = pending-IsScan room current some_room clear
token_loop-IsScan (c ∷ rest) room current some_room clear = elim (Bool-cases (c == b' ')) [
  | inr other ↦
      let ih =
        token_loop-IsScan rest room (current ++ (c ∷ [])) some_room
          (no_space-snoc current c clear other) in
      rw (token_loop, other)
        (record {
          words = ih.words;
          kept = ih.kept ∙ append_assoc current (c ∷ []) (squeeze rest) ∙ rw other refl;
          few = ih.few;
        })
  | inl space ↦
      let e : c ≡ b' ' = ground (arith, space) in
      subst (λ b. IsScan room current (b ∷ rest) (token_loop room current (b ∷ rest))) (sym e)
        (after_space room current rest clear some_room
          (token_loop-IsScan rest room [] some_room refl)
          (λ others. token_loop-IsScan rest (room - 1) [] (ground (arith, others)) refl))
]

-- Whatever the line, every token of `tokenize_command` is a word without spaces that is not
-- empty, no byte but spaces is lost or moved between the tokens and what is left unscanned, and
-- there are at most as many tokens as are asked for, which are two or more, with the empty one
-- that ends them.
pub tokenize_command_lem :
    (command : List ℕ) (max_nr : ℕ)
    → 1 < max_nr
    → let ts = tokenize_command command max_nr in
      (all_words ts.tokens ≡ true)
      × (flatten ts.tokens ++ squeeze ts.unscanned ≡ squeeze command)
      × (ntokens ts ≤ max_nr)
unfolding tokenize_command
tokenize_command_lem command max_nr fits =
    let scan = token_loop-IsScan command (max_nr - 1) [] (omega arith) refl in
    (scan.words, scan.kept, omega (arith, scan.few))
