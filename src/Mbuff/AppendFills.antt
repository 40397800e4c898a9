-- ===== src/Mbuff/AppendFills.antt =====
-- What `append` of mbuff.hh does with a function that copies from a source.
use u_depot.Base.{
  ℕ, zero, suc, ◌+◌, ◌-◌, ◌≤◌, ◌<◌, ◌≡◌, refl, sym, ap, ap₂, subst, ◌∙◌, Bool, true, false, ◌||◌,
  inl, inr, none, some, List, ◌++◌, ltb, ◌==◌, min, arith, length, take, drop, length-take,
  length-drop, length-append, append_assoc, append_nil, take-all, drop-all, take-add, take-take,
  take-append, drop-take, drop-drop, Bool-cases, Option-cases,
}
use u_depot.Mbuff.{
  Node, Mbuff, append_space, get_append_chunk, tail, flag, append_avail_size, append_avail_nchunks,
}
use u_depot.Mbuff.Append.{
  Call, Fn, append_prepare, tail_chunk, append_finalize, append_loop, append, copy_in, Copy,
  copied_of, append_from_buffer,
}
use u_depot.Mbuff.Valid.{contents, IsValid}
use u_depot.Mbuff.AppendRoom.{Prepared, avail_lem, Outcome, append_prepare-Outcome, finalize_lem}

few_chunks : (m : Mbuff) → IsValid m → append_avail_nchunks m < length m.free + 2
unfolding append_avail_nchunks
few_chunks m v = elim (Option-cases (tail m.nodes)) [
  | inl e ↦ rw e (omega (arith, v.free_counted))
  | inr (n, e) ↦
      let low : flag (ltb 0 (append_space n)) ≤ 1 = flag_small (ltb 0 (append_space n)) in
      rw e (omega (arith, v.free_counted, low))
]
  where
    flag_small : (b : Bool) → flag b ≤ 1
    flag_small true = omega arith
    flag_small false = omega arith

-- when the loop of `append` stops, and when it goes on
stop_short : (k a : ℕ) → 0 < a → k == 0 || ltb k a ≡ true → k < a
stop_short k a h e = ground arith

go_on_full : (k a : ℕ) → k ≤ a → k == 0 || ltb k a ≡ false → k ≡ a
go_on_full k a h e = ground arith

-- A function that writes into each chunk the next bytes of a source, as many as fit; `rest` is what is
-- left of the source in a state that is `ok`.
pub record IsCopier {S : Type 0} (f : Fn S) (rest : S → List ℕ) (ok : S → Type 0) : Type 0 where
  pub width : (s : S) (b : List ℕ) → ok s → length (f s b).bytes ≡ length b
  pub counted : (s : S) (b : List ℕ) → ok s → (f s b).count ≡ min (length (rest s)) (length b)
  pub written :
      (s : S) (b : List ℕ) → ok s → take (f s b).count (f s b).bytes ≡ take (f s b).count (rest s)
  pub left : (s : S) (b : List ℕ) → ok s → rest (f s b).state ≡ drop (f s b).count (rest s)
  pub keeps : (s : S) (b : List ℕ) → ok s → ok (f s b).state

-- How `append` ends: with the source behind the data, up to the space that there was.
pub record Filled {S : Type 0} (rest : S → List ℕ) (ok : S → Type 0) (m : Mbuff) (s : S)
    (m' : Mbuff) (s' : S) : Type 0 where
  pub valid : IsValid m'
  pub extended : contents m' ≡ contents m ++ take (append_avail_size m) (rest s)
  pub still : ok s'
  pub remains : rest s' ≡ drop (append_avail_size m) (rest s)

module _ {S : Type 0} {f : Fn S} {rest : S → List ℕ} {ok : S → Type 0}
    (copier : IsCopier f rest ok) where
  abbrev Ends : ℕ → Mbuff → S → Type 0
  Ends fuel m s =
      (m' : Mbuff) × (s' : S) × (append_loop f fuel m s ≡ some (m', s')) × Filled rest ok m s m' s'

  -- what a call of the function leaves
  abbrev call_of : Mbuff → S → Call S
  call_of m₁ s = f s (tail_chunk m₁)

  abbrev round_of : Mbuff → S → Mbuff
  round_of m₁ s = append_finalize m₁ (call_of m₁ s).bytes (call_of m₁ s).count

  no_space-Ends :
      (fuel : ℕ) (m : Mbuff) (s : S)
      → IsValid m
      → ok s
      → append_prepare m ≡ none
      → Ends (suc fuel) m s
  unfolding Outcome append_loop
  no_space-Ends fuel m s v o e =
      let nothing : append_avail_size m ≡ 0 = subst (Outcome m) e (append_prepare-Outcome m v) in
      (
        m,
        s,
        rw (append_loop, e) refl,
        record {
          valid = v;
          still = o;
          extended = rw nothing (sym (append_nil (contents m)));
          remains = rw nothing refl;
        },
      )

  round-Ends :
      (fuel : ℕ) (m m₁ : Mbuff) (n : Node) (s : S)
      → ok s
      → append_prepare m ≡ some m₁
      → Prepared m m₁ n
      → (append_avail_nchunks (round_of m₁ s) < append_avail_nchunks m
          → IsValid (round_of m₁ s)
          → ok (call_of m₁ s).state
          → Ends fuel (round_of m₁ s) (call_of m₁ s).state)
      → Ends (suc fuel) m s
  unfolding append_loop
  round-Ends fuel m m₁ n s o e p more =
      let c = call_of m₁ s in
      let chunk : tail_chunk m₁ ≡ get_append_chunk n = rw (tail_chunk, p.is_tail) refl in
      let chunk_length : length (tail_chunk m₁) ≡ append_space n =
        ap length chunk ∙ length-drop (n.off + n.len) n.buff in
      let counted : c.count ≡ min (length (rest s)) (append_space n) =
        copier.counted s (tail_chunk m₁) o ∙ ap (min (length (rest s))) chunk_length in
      let width : length c.bytes ≡ append_space n =
        copier.width s (tail_chunk m₁) o ∙ chunk_length in
      let (valid, grown, avail, fewer) =
        finalize_lem m m₁ n c.bytes c.count p width (omega (arith, counted)) in
      let grown' : contents (round_of m₁ s) ≡ contents m ++ take c.count (rest s) =
        grown ∙ ap (λ x. contents m ++ x) (copier.written s (tail_chunk m₁) o) in
      let within : append_space n ≤ append_avail_size m =
        omega (arith, avail_lem m₁ n p.is_tail, p.same_avail) in
      elim (Bool-cases (c.count == 0 || ltb c.count (length (tail_chunk m₁)))) [
        | inl stop ↦
            let short : c.count ≡ length (rest s) = omega (
              arith,
              counted,
              chunk_length,
              p.has_space,
              stop_short c.count (length (tail_chunk m₁)) (omega (arith, chunk_length, p.has_space))
                  stop,
            ) in
            (
              round_of m₁ s,
              c.state,
              rw (append_loop, e, stop) refl,
              record {
                valid = valid;
                still = copier.keeps s (tail_chunk m₁) o;
                extended =
                    grown'
                    ∙ ap (λ x. contents m ++ x)
                        (take-all c.count (rest s) (omega (arith, short))
                          ∙ sym (
                              take-all (append_avail_size m) (rest s)
                                (omega (arith, counted, short, within))));
                remains =
                    copier.left s (tail_chunk m₁) o
                    ∙ (drop-all c.count (rest s) (omega (arith, short))
                        ∙ sym (
                            drop-all (append_avail_size m) (rest s)
                              (omega (arith, counted, short, within))));
              },
            )
        | inr go_on ↦
            let full : c.count ≡ append_space n = omega (
              arith,
              chunk_length,
              go_on_full c.count (length (tail_chunk m₁)) (omega (arith, counted, chunk_length))
                  go_on,
            ) in
            let (m', s', done, r) = more (fewer full) valid (copier.keeps s (tail_chunk m₁) o) in
            let sum : c.count + append_avail_size (round_of m₁ s) ≡ append_avail_size m =
              omega (arith, avail, full, within) in
            (
              m',
              s',
              rw (append_loop, e, go_on) done,
              record {
                valid = r.valid;
                still = r.still;
                extended =
                    r.extended
                    ∙ (ap₂ (λ x y. x ++ take (append_avail_size (round_of m₁ s)) y) grown'
                          (copier.left s (tail_chunk m₁) o)
                        ∙ (append_assoc (contents m) (take c.count (rest s)) _
                            ∙ ap (λ x. contents m ++ x)
                                (sym (take-add c.count (append_avail_size (round_of m₁ s)) (rest s))
                                  ∙ ap (λ k. take k (rest s)) sum)));
                remains =
                    r.remains
                    ∙ (ap (drop (append_avail_size (round_of m₁ s)))
                          (copier.left s (tail_chunk m₁) o)
                        ∙ (drop-drop (append_avail_size (round_of m₁ s)) c.count (rest s)
                            ∙ ap (λ k. drop k (rest s)) sum));
              },
            )
      ]

  loop-Ends :
      (fuel : ℕ) (m : Mbuff) (s : S)
      → IsValid m
      → ok s
      → append_avail_nchunks m < fuel
      → Ends fuel m s
  unfolding Outcome
  loop-Ends zero m s v o lt = absurd (omega arith)
  loop-Ends (suc fuel) m s v o lt = elim (Option-cases (append_prepare m)) [
    | inl e ↦ no_space-Ends fuel m s v o e
    | inr (m₁, e) ↦
        let (n, p) = subst (Outcome m) e (append_prepare-Outcome m v) in
        round-Ends fuel m m₁ n s o e p (λ fewer valid o'.
          loop-Ends fuel (round_of m₁ s) (call_of m₁ s).state valid o' (omega (arith, lt, fewer)))
  ]

  -- On a valid Mbuff, `append` with a function that copies from a source, in a state that is
  -- `ok` for it, ends: the Mbuff is valid and has behind its data as much of the source as
  -- there was space for, the rest of the source is left, and the state is `ok`.
  pub append-Filled :
      (m : Mbuff) (s : S)
      → IsValid m
      → ok s
      → (m' : Mbuff) × (s' : S) × (append f m s ≡ some (m', s')) × Filled rest ok m s m' s'
  unfolding append
  append-Filled m s v o = loop-Ends (length m.free + 2) m s v o (few_chunks m v)

module _ (src : List ℕ) where
  pub rest_of : Copy → List ℕ
  rest_of s = take s.remaining (drop s.copied src)

  -- the assertion in the function of `append_from_buffer`
  abbrev pub Splits : Copy → Type 0
  Splits s = s.remaining + s.copied ≡ length src

  length-rest_of : (s : Copy) → Splits s → length (rest_of s) ≡ s.remaining
  unfolding rest_of
  length-rest_of s h =
      omega (arith, length-take s.remaining (drop s.copied src), length-drop s.copied src, h)

  pub copy_in-IsCopier : IsCopier (copy_in src) rest_of Splits
  unfolding rest_of
  copy_in-IsCopier = record {
    width = λ s b o.
        let k : ℕ = min s.remaining (length b) in
        length-append (take k (drop s.copied src)) (drop k b)
        ∙ omega (
          arith,
          o,
          length-take k (drop s.copied src),
          length-drop s.copied src,
          length-drop k b,
        );
    counted = λ s b o. ap (λ k. min k (length b)) (sym (length-rest_of s o));
    written = λ s b o.
        let k : ℕ = min s.remaining (length b) in
        let front : List ℕ = take k (drop s.copied src) in
        let whole : length front ≡ k =
          omega (arith, o, length-take k (drop s.copied src), length-drop s.copied src) in
        let none_left : k - length front ≡ 0 = omega (arith, whole) in
        take-append k front (drop k b)
        ∙ (ap (λ j. take k front ++ take j (drop k b)) none_left
            ∙ (append_nil (take k front)
                ∙ (take-take k k (drop s.copied src) (omega arith)
                    ∙ sym (take-take k s.remaining (drop s.copied src) (omega arith)))));
    left = λ s b o.
        let k : ℕ = min s.remaining (length b) in
        let sum : k + (s.remaining - k) ≡ s.remaining = omega arith in
        ap (take (s.remaining - k)) (sym (drop-drop k s.copied src))
        ∙ (sym (drop-take k (s.remaining - k) (drop s.copied src))
            ∙ ap (λ j. drop k (take j (drop s.copied src))) sum);
    keeps = λ s b o. omega (arith, o);
  }

  -- On a valid Mbuff, `append_from_buffer` ends and returns the smaller of the source's size
  -- and `append_avail_size`; the Mbuff is valid and has that many bytes of the source behind
  -- its data.
  pub append_from_buffer_lem :
      (m : Mbuff)
      → IsValid m
      → (m' : Mbuff) × (append_from_buffer m src
          ≡ some (m', min (length src) (append_avail_size m)))
        × IsValid m'
        × (contents m' ≡ contents m ++ take (append_avail_size m) src)
  unfolding append_from_buffer rest_of
  append_from_buffer_lem m v =
      let (m', s', e, r) =
        append-Filled copy_in-IsCopier m (record { remaining = length src; copied = 0 }) v
          (omega arith) in
      let all : take (length src) src ≡ src = take-all (length src) src (omega arith) in
      let remaining : s'.remaining ≡ length src - append_avail_size m =
        sym (length-rest_of s' r.still)
        ∙ (ap length (r.remains ∙ ap (drop (append_avail_size m)) all)
            ∙ length-drop (append_avail_size m) src) in
      let copied : s'.copied ≡ min (length src) (append_avail_size m) =
        omega (arith, remaining, r.still) in
      (
        m',
        ap copied_of e ∙ ap (λ k. some (m', k)) copied,
        r.valid,
        r.extended ∙ ap (λ x. contents m ++ take (append_avail_size m) x) all,
      )
