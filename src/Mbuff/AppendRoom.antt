-- ===== src/Mbuff/AppendRoom.antt =====
-- The space that `append_prepare` and `append_finalize` of mbuff.cc find and take.
use u_depot.Base.{
  ℕ, suc, ◌+◌, ◌-◌, ◌≤◌, ◌<◌, ◌≡◌, refl, sym, ap, subst, ◌∙◌, true, false, inl, inr, Option, none,
  some, List, [], ◌∷◌, ◌++◌, ltb, arith, length, take, length-take, length-append, ltb→lt, lt→ltb,
  Bool-cases, Option-cases,
}
use u_depot.Mbuff.{
  Node, Mbuff, append_space, put_append_chunk, tail, get_free_node, flag, append_avail_size,
  append_avail_nchunks,
}
use u_depot.Mbuff.Append.{append_new, append_prepare, append_finalize}
use u_depot.Mbuff.Valid.{
  contents, Empty, IsValid, buffers_size, on_tail-bytes, on_tail-Fits, on_tail-size, tail-on_tail,
  tail-snoc, Fits-snoc, tail-Fits, snoc-bytes, snoc-size,
}

-- An Mbuff whose tail has space, with the data and the space of `m`.
pub record Prepared (m m₁ : Mbuff) (n : Node) : Type 0 where
  pub valid : IsValid m₁
  pub same_contents : contents m₁ ≡ contents m
  pub same_avail : append_avail_size m₁ ≡ append_avail_size m
  pub same_nchunks : append_avail_nchunks m₁ ≡ append_avail_nchunks m
  pub is_tail : tail m₁.nodes ≡ some n
  pub has_space : 0 < append_space n

pub avail_lem :
    (m : Mbuff) (n : Node)
    → tail m.nodes ≡ some n
    → append_avail_size m ≡ m.free_size + append_space n
unfolding append_avail_size
avail_lem m n e = rw e refl

nchunks_lem :
    (m : Mbuff) (n : Node)
    → tail m.nodes ≡ some n
    → append_avail_nchunks m ≡ m.free_nodes + flag (ltb 0 (append_space n))
unfolding append_avail_nchunks
nchunks_lem m n e = rw e refl

unfoldable pub Outcome : Mbuff → Option Mbuff → Type 0
Outcome m none = append_avail_size m ≡ 0
Outcome m (some m₁) = (n : Node) × Prepared m m₁ n

-- no space at the tail
NoRoom : Mbuff → Type 0
NoRoom m = (append_avail_size m ≡ m.free_size) × (append_avail_nchunks m ≡ m.free_nodes)

append_new-Outcome : (m : Mbuff) → IsValid m → NoRoom m → Outcome m (append_new m)
unfolding append_new get_free_node Outcome NoRoom
append_new-Outcome m v (none_left, none_counted) = go m v none_left none_counted m.free refl
  where
    go :
        (m : Mbuff)
        → IsValid m
        → append_avail_size m ≡ m.free_size
        → append_avail_nchunks m ≡ m.free_nodes
        → (free : List Node) → m.free ≡ free
        → Outcome m (append_new m)
    go m v q c [] e =
        subst (λ r. Outcome m r)
          (let g : none ≡ append_new m = rw (append_new, get_free_node, e) in g)
          (omega (arith, q, v.free_sized, ap buffers_size e))
    go m v q c (n ∷ rest) e =
        let m₁ : Mbuff = record m {
          nodes = m.nodes ++ n ∷ [];
          free = rest;
          free_size = m.free_size - length n.buff;
          free_nodes = m.free_nodes - 1;
        } in
        let (off, len, some_space, others) = subst Empty e v.empty in
        let whole : m.free_size ≡ length n.buff + buffers_size rest =
          v.free_sized ∙ ap buffers_size e in
        let counted : m.free_nodes ≡ suc (length rest) = v.free_counted ∙ ap length e in
        let space : append_space n ≡ length n.buff = omega (arith, off, len) in
        let last = tail-snoc m.nodes n in
        let positive : ltb 0 (append_space n) ≡ true =
          lt→ltb 0 (append_space n) (omega (arith, space, some_space)) in
        let one : flag (ltb 0 (append_space n)) ≡ 1 = rw positive refl in
        subst (λ r. Outcome m r)
          (let g : some m₁ ≡ append_new m = rw (append_new, get_free_node, e) in g)
          (
            n,
            record {
              valid = record {
                fits = Fits-snoc m.nodes n v.fits (omega (arith, off, len, some_space)) some_space;
                empty = others;
                sized = v.sized ∙ sym (snoc-size m.nodes n len);
                free_sized = omega (arith, whole);
                free_counted = omega (arith, counted);
              };
              same_contents = snoc-bytes m.nodes n len;
              same_avail = omega (arith, avail_lem m₁ n last, q, whole, space);
              same_nchunks = omega (arith, nchunks_lem m₁ n last, one, c, counted);
              is_tail = last;
              has_space = omega (arith, space, some_space);
            },
          )

no_tail : (m : Mbuff) → tail m.nodes ≡ none → NoRoom m
unfolding append_avail_size append_avail_nchunks NoRoom
no_tail m e = (rw e (omega arith), rw e (omega arith))

pub append_prepare-Outcome : (m : Mbuff) → IsValid m → Outcome m (append_prepare m)
unfolding append_prepare NoRoom Outcome
append_prepare-Outcome m v = elim (Option-cases (tail m.nodes)) [
  | inl e ↦
      let to_new : append_new m ≡ append_prepare m = rw (append_prepare, e) in
      subst (Outcome m) to_new (append_new-Outcome m v (no_tail m e))
  | inr (n, e) ↦ elim (Bool-cases (ltb 0 (append_space n))) [
    | inl space ↦
        let same : some m ≡ append_prepare m = rw (append_prepare, e, space) in
        subst (Outcome m) same (
          n,
          record {
            valid = v;
            same_contents = refl;
            same_avail = refl;
            same_nchunks = refl;
            is_tail = e;
            has_space = ltb→lt 0 (append_space n) space;
          },
        )
    | inr space ↦
        let to_new : append_new m ≡ append_prepare m = rw (append_prepare, e, space) in
        let nothing : append_space n ≡ 0 = ground (arith, space) in
        let uncounted : flag (ltb 0 (append_space n)) ≡ 0 = rw space refl in
        subst (Outcome m) to_new (
          append_new-Outcome m v
            (omega (arith, avail_lem m n e, nothing), omega (arith, nchunks_lem m n e, uncounted)))
  ]
]

-- The room that a finalised chunk takes.
pub finalize_lem :
    (m m₁ : Mbuff) (n : Node) (bytes : List ℕ) (k : ℕ)
    → Prepared m m₁ n
    → length bytes ≡ append_space n
    → k ≤ append_space n
    → IsValid (append_finalize m₁ bytes k)
      × (contents (append_finalize m₁ bytes k) ≡ contents m ++ take k bytes)
      × (append_avail_size (append_finalize m₁ bytes k) ≡ append_avail_size m - k)
      × (k ≡ append_space n
          → append_avail_nchunks (append_finalize m₁ bytes k) < append_avail_nchunks m)
finalize_lem m m₁ n bytes k p w l =
    let v = p.valid in
    let after = tail-on_tail n bytes k m₁.nodes p.is_tail in
    let here = tail-Fits m₁.nodes n v.fits p.is_tail in
    let wide = length-append (take (n.off + n.len) n.buff) bytes in
    let front = length-take (n.off + n.len) n.buff in
    let left : append_space (put_append_chunk bytes k n) ≡ append_space n - k =
      omega (arith, wide, front, here, w, l) in
    (
      record {
        fits = on_tail-Fits n bytes k m₁.nodes v.fits p.is_tail w l;
        empty = v.empty;
        sized = omega (arith, v.sized, on_tail-size n bytes k m₁.nodes p.is_tail);
        free_sized = v.free_sized;
        free_counted = v.free_counted;
      },
      on_tail-bytes n bytes k m₁.nodes v.fits p.is_tail
          ∙ ap (λ x. x ++ take k bytes) p.same_contents,
      omega (
        arith,
        avail_lem (append_finalize m₁ bytes k) (put_append_chunk bytes k n) after,
        avail_lem m₁ n p.is_tail,
        p.same_avail,
        left,
        l,
      ),
      λ all.
          let nothing : append_space (put_append_chunk bytes k n) ≡ 0 = omega (arith, left, all) in
          let closed : ltb 0 (append_space (put_append_chunk bytes k n)) ≡ false =
            ground (arith, nothing) in
          let uncounted : flag (ltb 0 (append_space (put_append_chunk bytes k n))) ≡ 0 =
            rw closed refl in
          let open_before : ltb 0 (append_space n) ≡ true = lt→ltb 0 (append_space n) p.has_space in
          let counted : flag (ltb 0 (append_space n)) ≡ 1 = rw open_before refl in
          omega (
            arith,
            nchunks_lem (append_finalize m₁ bytes k) (put_append_chunk bytes k n) after,
            uncounted,
            nchunks_lem m₁ n p.is_tail,
            counted,
            p.same_nchunks,
          ),
    )
