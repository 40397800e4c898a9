-- ===== src/Mbuff/Valid.antt =====
-- The data that an Mbuff holds, and the order of its lists.
use u_depot.Base.{
  ℕ, ◌+◌, ◌-◌, ◌≤◌, ◌<◌, ◌≡◌, refl, sym, ap, ◌∙◌, some, List, [], ◌∷◌, ◌++◌, arith, length, take,
  drop, length-take, length-drop, length-append, append_assoc, append_nil, take-append, drop-append,
  drop-take, take-all,
}
use u_depot.Mbuff.{
  Node, Mbuff, append_space, put_append_chunk, tail, on_tail, compute_valid_size, get_valid_chunk,
}

-- the valid part of a node
abbrev pub bytes_of : Node → List ℕ
bytes_of n = get_valid_chunk n 0 n.len

abbrev pub chain_bytes : List Node → List ℕ
chain_bytes [] = []
chain_bytes (n ∷ ns) = take n.len (drop n.off n.buff) ++ chain_bytes ns

-- the data of an Mbuff
abbrev pub contents : Mbuff → List ℕ
contents m = chain_bytes m.nodes

-- Every valid part lies in its buffer, which is not empty.
abbrev pub Fits : List Node → Type 0
Fits [] = Unit
Fits (n ∷ ns) = (n.off + n.len ≤ length n.buff) × (0 < length n.buff) × Fits ns

-- A free node is empty, and its buffer is not.
abbrev pub Empty : List Node → Type 0
Empty [] = Unit
Empty (n ∷ ns) = (n.off ≡ 0) × (n.len ≡ 0) × (0 < length n.buff) × Empty ns

abbrev pub buffers_size : List Node → ℕ
buffers_size [] = 0
buffers_size (n ∷ ns) = length n.buff + buffers_size ns

pub record IsValid (m : Mbuff) : Type 0 where
  pub fits : Fits m.nodes
  pub empty : Empty m.free
  pub sized : m.valid_size ≡ compute_valid_size m.nodes
  pub free_sized : m.free_size ≡ buffers_size m.free
  pub free_counted : m.free_nodes ≡ length m.free

pub length-bytes :
    (n : Node) → n.off + n.len ≤ length n.buff → length (take n.len (drop n.off n.buff)) ≡ n.len
length-bytes n h = omega (arith, length-take n.len (drop n.off n.buff), length-drop n.off n.buff)

pub length-chain_bytes :
    (ns : List Node) → Fits ns → length (chain_bytes ns) ≡ compute_valid_size ns
unfolding compute_valid_size
length-chain_bytes [] h = refl
length-chain_bytes (n ∷ ns) (h, b, hs) =
    length-append (take n.len (drop n.off n.buff)) (chain_bytes ns)
    ∙ omega (arith, length-bytes n h, length-chain_bytes ns hs)

-- A node that takes a chunk back holds the bytes of the chunk behind its own.
pub put_append_chunk-bytes :
    (n : Node) (bytes : List ℕ) (k : ℕ)
    → n.off + n.len ≤ length n.buff
    → take (n.len + k) (drop n.off (take (n.off + n.len) n.buff ++ bytes))
      ≡ take n.len (drop n.off n.buff) ++ take k bytes
put_append_chunk-bytes n bytes k h =
    let front : List ℕ = take (n.off + n.len) n.buff in
    let front_length : length front ≡ n.off + n.len =
      omega (arith, length-take (n.off + n.len) n.buff) in
    let none_left : n.off - length front ≡ 0 = omega (arith, front_length) in
    let own : List ℕ = take n.len (drop n.off n.buff) in
    let own_length : length own ≡ n.len = length-bytes n h in
    let more : n.len + k - length own ≡ k = omega (arith, own_length) in
    ap (take (n.len + k)) (
      drop-append n.off front bytes
      ∙ (ap (λ j. drop n.off front ++ drop j bytes) none_left
          ∙ ap (λ l. l ++ bytes) (drop-take n.off n.len n.buff)))
    ∙ (take-append (n.len + k) own bytes
        ∙ (ap (λ j. take (n.len + k) own ++ take j bytes) more
            ∙ ap (λ l. l ++ take k bytes) (take-all (n.len + k) own (omega (arith, own_length)))))

module _ (n : Node) (bytes : List ℕ) (k : ℕ) where
  -- The same of the last node of a chain.
  pub on_tail-bytes :
      (ns : List Node)
      → Fits ns
      → tail ns ≡ some n
      → chain_bytes (on_tail (put_append_chunk bytes k) ns) ≡ chain_bytes ns ++ take k bytes
  on_tail-bytes [] h e = absurd (cc e)
  on_tail-bytes (x ∷ []) (h, b, _) e =
      append_nil _
      ∙ (put_append_chunk-bytes x bytes k h ∙ ap (λ l. l ++ take k bytes) (sym (append_nil _)))
  on_tail-bytes (x ∷ y ∷ ns) (h, b, hs) e =
      ap (λ l. take x.len (drop x.off x.buff) ++ l) (on_tail-bytes (y ∷ ns) hs e)
      ∙ sym (append_assoc (take x.len (drop x.off x.buff)) (chain_bytes (y ∷ ns)) (take k bytes))

  pub on_tail-Fits :
      (ns : List Node)
      → Fits ns
      → tail ns ≡ some n
      → length bytes ≡ append_space n
      → k ≤ append_space n
      → Fits (on_tail (put_append_chunk bytes k) ns)
  on_tail-Fits [] h e w l = tt
  on_tail-Fits (x ∷ []) (h, b, _) e w l =
      let same : x ≡ n = cc e in
      let w' : length bytes ≡ append_space x = rw same w in
      let l' : k ≤ append_space x = rw same l in
      (
        omega (
          arith,
          w',
          l',
          length-append (take (x.off + x.len) x.buff) bytes,
          length-take (x.off + x.len) x.buff,
        ),
        omega (
          arith,
          w',
          h,
          b,
          length-append (take (x.off + x.len) x.buff) bytes,
          length-take (x.off + x.len) x.buff,
        ),
        tt,
      )
  on_tail-Fits (x ∷ y ∷ ns) (h, b, hs) e w l = (h, b, on_tail-Fits (y ∷ ns) hs e w l)

  pub on_tail-size :
      (ns : List Node)
      → tail ns ≡ some n
      → compute_valid_size (on_tail (put_append_chunk bytes k) ns) ≡ compute_valid_size ns + k
  unfolding compute_valid_size
  on_tail-size [] e = absurd (cc e)
  on_tail-size (x ∷ []) e = omega arith
  on_tail-size (x ∷ y ∷ ns) e = omega (arith, on_tail-size (y ∷ ns) e)

  pub tail-on_tail :
      (ns : List Node)
      → tail ns ≡ some n
      → tail (on_tail (put_append_chunk bytes k) ns) ≡ some (put_append_chunk bytes k n)
  tail-on_tail [] e = absurd (cc e)
  tail-on_tail (x ∷ []) e = let same : x ≡ n = cc e in rw same refl
  tail-on_tail (x ∷ y ∷ []) e = let same : y ≡ n = cc e in rw same refl
  tail-on_tail (x ∷ y ∷ z ∷ ns) e = tail-on_tail (y ∷ z ∷ ns) e

pub tail-snoc : (ns : List Node) (n : Node) → tail (ns ++ n ∷ []) ≡ some n
tail-snoc [] n = refl
tail-snoc (x ∷ []) n = refl
tail-snoc (x ∷ y ∷ ns) n = tail-snoc (y ∷ ns) n

pub Fits-snoc :
    (ns : List Node) (n : Node)
    → Fits ns
    → n.off + n.len ≤ length n.buff
    → 0 < length n.buff
    → Fits (ns ++ n ∷ [])
Fits-snoc [] n h k j = (k, j, tt)
Fits-snoc (x ∷ ns) n (h, b, hs) k j = (h, b, Fits-snoc ns n hs k j)

pub tail-Fits :
    (ns : List Node) (n : Node) → Fits ns → tail ns ≡ some n → n.off + n.len ≤ length n.buff
tail-Fits [] n h e = absurd (cc e)
tail-Fits (x ∷ []) n (h, b, _) e = let same : x ≡ n = cc e in rw (sym same) h
tail-Fits (x ∷ y ∷ ns) n (h, b, hs) e = tail-Fits (y ∷ ns) n hs e

pub snoc-bytes :
    (ns : List Node) (n : Node) → n.len ≡ 0 → chain_bytes (ns ++ n ∷ []) ≡ chain_bytes ns
snoc-bytes [] n e = rw e refl
snoc-bytes (x ∷ ns) n e = ap (λ l. take x.len (drop x.off x.buff) ++ l) (snoc-bytes ns n e)

pub snoc-size :
    (ns : List Node) (n : Node)
    → n.len ≡ 0
    → compute_valid_size (ns ++ n ∷ []) ≡ compute_valid_size ns
unfolding compute_valid_size
snoc-size [] n e = omega (arith, e)
snoc-size (x ∷ ns) n e = omega (arith, snoc-size ns n e)
