-- ===== src/Mbuff/IterateReads.antt =====
-- What `copy_to_buffer` of mbuff.hh reads through an iterator.
use u_depot.Base.{
  ℕ, zero, suc, ◌+◌, ◌-◌, ◌≤◌, ◌<◌, ◌≡◌, refl, sym, ap, ap₂, ◌∙◌, true, false, inl, inr, List, [],
  ◌∷◌, ◌++◌, ltb, leb, ◌==◌, min, arith, length, take, drop, length-take, length-drop, take-both,
  take-all, drop-all, take-append, drop-append, take-nil, ltb→lt, Bool-cases,
}
use u_depot.Mbuff.{Node, Mbuff, compute_valid_size}
use u_depot.Mbuff.Iterate.{
  Iterator, invalid, find_node, iterate_at, do_initialize_iterator, iterate_valid_partial_init,
  next, next_at, copy_loop, copy_to_buffer,
}
use u_depot.Mbuff.Valid.{contents, chain_bytes, Fits, IsValid, length-chain_bytes, length-bytes}
use u_depot.Mbuff.ResliceKeeps.{shorter}

-- A node's bytes from its offset `k` on, as far as `l`, and the bytes of the nodes behind it.
first_chunk :
    (n : Node) (ns : List Node) (k l : ℕ)
    → n.off + n.len ≤ length n.buff
    → k ≤ n.len
    → take l (drop k (chain_bytes (n ∷ ns)))
      ≡ take (min l (n.len - k)) (drop (n.off + k) n.buff)
        ++ take (l - (n.len - k)) (chain_bytes ns)
first_chunk n ns k l h le =
    let own : List ℕ = take n.len (drop n.off n.buff) in
    let width : length own ≡ n.len = length-bytes n h in
    let inside : k - length own ≡ 0 = omega (arith, width, le) in
    let tail_width : length (drop k own) ≡ n.len - k = omega (arith, width, length-drop k own) in
    let past : l - length (drop k own) ≡ l - (n.len - k) = omega (arith, tail_width) in
    ap (take l)
      (drop-append k own (chain_bytes ns) ∙ ap (λ j. drop k own ++ drop j (chain_bytes ns)) inside)
    ∙ (take-append l (drop k own) (chain_bytes ns)
        ∙ ap₂ (λ x j. x ++ take j (chain_bytes ns))
            (ap (take l) (sym (shorter n k le)) ∙ take-both l (n.len - k) (drop (n.off + k) n.buff))
            past)

next_at-iterate_at :
    (n : Node) (ns : List Node) (l : ℕ) → next_at (n ∷ ns) l ≡ iterate_at (n ∷ ns) 0 l
next_at-iterate_at n ns l = let e : n.len - 0 ≡ n.len = omega arith in rw e refl

copy_loop-invalid : (fuel total copied : ℕ) → copy_loop fuel invalid total copied ≡ []
unfolding copy_loop
copy_loop-invalid zero total copied = refl
copy_loop-invalid (suc fuel) total copied = refl

-- the iterator behind one that shows all it has, and behind one that does not
next-last :
    (n : Node) (ns : List Node) (l : ℕ) (c : List ℕ)
    → l - length c ≡ 0
    → next (record { nodes = n ∷ ns; len = l; chunk = c }) ≡ invalid
unfolding next
next-last n ns l c e = let t : (l - length c == 0) ≡ true = ground (arith, e) in rw t refl

next-more :
    (n : Node) (ns : List Node) (l : ℕ) (c : List ℕ)
    → 0 < l - length c
    → next (record { nodes = n ∷ ns; len = l; chunk = c }) ≡ next_at ns (l - length c)
unfolding next
next-more n ns l c h = let t : (l - length c == 0) ≡ false = ground (arith, h) in rw t refl

-- One round of the loop.
copy_loop-round :
    (n : Node) (ns : List Node) (l fuel total copied : ℕ) (c : List ℕ)
    → total ≡ copied + l
    → length c ≤ l
    → let it : Iterator = record { nodes = n ∷ ns; len = l; chunk = c } in
      copy_loop (suc fuel) it total copied ≡ c ++ copy_loop fuel (next it) total (copied + length c)
unfolding copy_loop
copy_loop-round n ns l fuel total copied c e le =
    let it : Iterator = record { nodes = n ∷ ns; len = l; chunk = c } in
    let cp : min (total - copied) (length c) ≡ length c = omega (arith, e, le) in
    ap (λ j. take j c ++ copy_loop fuel (next it) total (copied + j)) cp
    ∙ ap (λ x. x ++ copy_loop fuel (next it) total (copied + length c))
        (take-all (length c) c (omega arith))

-- The width of the chunk that an iterator shows of a node.
chunk-length :
    (n : Node) (k l : ℕ)
    → n.off + n.len ≤ length n.buff
    → k ≤ n.len
    → length (take (min l (n.len - k)) (drop (n.off + k) n.buff)) ≡ min l (n.len - k)
chunk-length n k l h le = omega (
  arith,
  h,
  le,
  length-take (min l (n.len - k)) (drop (n.off + k) n.buff),
  length-drop (n.off + k) n.buff,
)

-- The loop on a node, when it goes on to copy the nodes behind.
node_reads :
    (n : Node) (ns : List Node) (k l fuel total copied : ℕ)
    → n.off + n.len ≤ length n.buff
    → k ≤ n.len
    → total ≡ copied + l
    → (0 < l - (n.len - k)
        → copy_loop fuel (next_at ns (l - (n.len - k))) total (copied + min l (n.len - k))
          ≡ take (l - (n.len - k)) (chain_bytes ns))
    → copy_loop (suc fuel) (iterate_at (n ∷ ns) k l) total copied
      ≡ take l (drop k (chain_bytes (n ∷ ns)))
node_reads n ns k l fuel total copied h le e onwards =
    let c : List ℕ = take (min l (n.len - k)) (drop (n.off + k) n.buff) in
    let width : length c ≡ min l (n.len - k) = chunk-length n k l h le in
    let behind : copy_loop fuel (next (record { nodes = n ∷ ns; len = l; chunk = c })) total
          (copied + length c)
        ≡ take (l - (n.len - k)) (chain_bytes ns) =
      elim (Bool-cases (leb l (n.len - k))) [
        | inl last ↦
            let none_left : l - (n.len - k) ≡ 0 = ground (arith, last) in
            ap (λ x. copy_loop fuel x total (copied + length c))
              (next-last n ns l c (omega (arith, width, none_left)))
            ∙ (copy_loop-invalid fuel total (copied + length c)
                ∙ ap (λ j. take j (chain_bytes ns)) (sym none_left))
        | inr more ↦
            let some_left : 0 < l - (n.len - k) = ground (arith, more) in
            let left : l - length c ≡ l - (n.len - k) = omega (arith, width, some_left) in
            ap₂ (λ x j. copy_loop fuel x total (copied + j))
              (next-more n ns l c (omega (arith, left, some_left)) ∙ ap (next_at ns) left) width
            ∙ onwards some_left
      ] in
    copy_loop-round n ns l fuel total copied c e (omega (arith, width))
    ∙ (ap (λ x. c ++ x) behind ∙ sym (first_chunk n ns k l h le))

-- The loop copies the bytes of a chain from offset `k` on, as far as the iterator goes.
reads :
    (n : Node) (ns : List Node) (k l fuel total copied : ℕ)
    → Fits (n ∷ ns)
    → k ≤ n.len
    → k + l ≤ compute_valid_size (n ∷ ns)
    → total ≡ copied + l
    → length ns + 2 ≤ fuel
    → copy_loop fuel (iterate_at (n ∷ ns) k l) total copied ≡ take l (drop k (chain_bytes (n ∷ ns)))
unfolding compute_valid_size
reads n ns k l zero total copied f le fits e enough = absurd (omega (arith, enough))
reads n [] k l (suc fuel) total copied (h, b, hs) le fits e enough =
    node_reads n [] k l fuel total copied h le e (λ pos. absurd (omega (arith, fits, pos)))
reads n (n' ∷ ns) k l (suc fuel) total copied (h, b, hs) le fits e enough =
    node_reads n (n' ∷ ns) k l fuel total copied h le e (λ pos.
      ap (λ x. copy_loop fuel x total (copied + min l (n.len - k)))
        (next_at-iterate_at n' ns (l - (n.len - k)))
      ∙ reads n' ns 0 (l - (n.len - k)) fuel total (copied + min l (n.len - k)) hs (omega arith)
          (omega (arith, fits, pos)) (omega (arith, e, pos)) (omega (arith, enough)))

-- The loop that starts where `find_node` leads.
found_reads :
    (ns : List Node) (off l : ℕ)
    → Fits ns
    → 0 < l
    → off + l ≤ compute_valid_size ns
    → let it : Iterator = iterate_at (find_node ns off).0 (find_node ns off).1 l in
      copy_loop (length it.nodes + 1) it it.len 0 ≡ take l (drop off (chain_bytes ns))
unfolding find_node compute_valid_size
found_reads [] off l f pos fits = absurd (omega (arith, pos, fits))
found_reads (n ∷ ns) off l (h, b, hs) pos fits = elim (Bool-cases (ltb off n.len)) [
  | inl here ↦
      let lt : off < n.len = ltb→lt off n.len here in
      rw here (
        reads n ns off l (suc (length ns) + 1) l 0 (h, b, hs) (omega (arith, lt))
          (omega (arith, fits)) (omega arith) (omega arith))
  | inr behind ↦
      let ge : n.len ≤ off = ground (arith, behind) in
      let own : List ℕ = take n.len (drop n.off n.buff) in
      let width : length own ≡ n.len = length-bytes n h in
      let less : off - length own ≡ off - n.len = omega (arith, width) in
      let bytes : drop (off - n.len) (chain_bytes ns) ≡ drop off (own ++ chain_bytes ns) =
        ap (λ k. drop k (chain_bytes ns)) (sym less)
        ∙ (ap (λ x. x ++ drop (off - length own) (chain_bytes ns))
              (sym (drop-all off own (omega (arith, width, ge))))
            ∙ sym (drop-append off own (chain_bytes ns))) in
      rw behind
        (found_reads ns (off - n.len) l hs pos (omega (arith, fits, ge)) ∙ ap (take l) bytes)
]

-- what a region of a list has, as far as the list goes
take-short : (n : ℕ) (xs : List ℕ) → take n xs ≡ take (min n (length xs)) xs
take-short n xs =
    ap (take n) (sym (take-all (length xs) xs (omega arith))) ∙ take-both n (length xs) xs

module _ (m : Mbuff) (off len : ℕ) (v : IsValid m) where
  region : List ℕ
  region = drop off (contents m)

  length-region : length region ≡ m.valid_size - off
  unfolding region
  length-region =
      omega (arith, length-drop off (contents m), length-chain_bytes m.nodes v.fits, v.sized)

  -- From a valid Mbuff, `copy_to_buffer` copies the bytes of the region, as far as the data
  -- reaches, and nothing for an offset behind the data.
  pub copy_to_buffer_lem : copy_to_buffer m off len ≡ take len (drop off (contents m))
  unfolding copy_to_buffer iterate_valid_partial_init do_initialize_iterator region
  copy_to_buffer_lem = elim (Bool-cases (ltb m.valid_size off)) [
    | inl outside ↦
        let gt : m.valid_size < off = ltb→lt m.valid_size off outside in
        rw (copy_to_buffer, iterate_valid_partial_init, outside)
          (sym (
            ap (take len) (
              drop-all off (contents m)
                (omega (arith, gt, v.sized, length-chain_bytes m.nodes v.fits)))
            ∙ take-nil len))
    | inr within ↦
        let le : off ≤ m.valid_size = ground (arith, within) in
        let l : ℕ = min len (m.valid_size - off) in
        let shorter_region : take l (drop off (contents m)) ≡ take len (drop off (contents m)) =
          ap (λ j. take (min len j) (drop off (contents m))) (sym length-region)
          ∙ sym (take-short len (drop off (contents m))) in
        elim (Bool-cases (l == 0)) [
          | inl nothing ↦
              let zero_l : l ≡ 0 = ground (arith, nothing) in
              rw (copy_to_buffer, iterate_valid_partial_init, within, nothing)
                (copy_loop-invalid 1 0 0
                  ∙ (ap (λ j. take j (drop off (contents m))) (sym zero_l) ∙ shorter_region))
          | inr some_l ↦
              let pos : 0 < l = ground (arith, some_l) in
              rw (copy_to_buffer, iterate_valid_partial_init, within, some_l)
                (found_reads m.nodes off l v.fits pos (omega (arith, le, v.sized)) ∙ shorter_region)
        ]
  ]
