-- ===== src/Mbuff/ResliceKeeps.antt =====
-- What `reslice` of mbuff.cc leaves of the data.
use native.Mathlib.Nat.{mod-eq_of_lt}
use u_depot.Base.{
  ℕ, ◌+◌, ◌-◌, ◌%◌, ◌^◌, ◌≤◌, ◌<◌, ◌≡◌, refl, sym, ap, ◌∙◌, false, inl, inr, some, List, [], ◌∷◌,
  ◌++◌, ltb, leb, ◌==◌, arith, length, take, drop, length-take, length-drop, take-all, drop-all,
  take-append, drop-append, drop-drop, drop-take, take-take, Bool-cases, take-nil, drop-nil, ltb→lt,
  leb→le,
}
use u_depot.Mbuff.{Node, Mbuff, reset_node, put_free_node, compute_valid_size}
use u_depot.Mbuff.Reslice.{free_nodes_of, skip_loop, cut_loop, unless_empty, reslice}
use u_depot.Mbuff.Valid.{
  contents, chain_bytes, Fits, Empty, IsValid, buffers_size, length-chain_bytes, length-bytes,
}

-- The order of the free list and its counts.
record FreeIsValid (m : Mbuff) : Type 0 where
  empty : Empty m.free
  free_sized : m.free_size ≡ buffers_size m.free
  free_counted : m.free_nodes ≡ length m.free

-- What a loop leaves: `kept` holds `bytes`, and the free list is in order.
record Kept (bytes : List ℕ) (kept : List Node) (m : Mbuff) : Type 0 where
  fits : Fits kept
  holds : chain_bytes kept ≡ bytes
  free_valid : FreeIsValid m

freed :
    (m : Mbuff) (n : Node)
    → FreeIsValid m
    → 0 < length n.buff
    → FreeIsValid (put_free_node m (reset_node n))
freed m n v b = record {
  empty = (refl, refl, b, v.empty);
  free_sized = omega (arith, v.free_sized);
  free_counted = omega (arith, v.free_counted);
}

free_nodes_of-FreeIsValid :
    (ns : List Node) (m : Mbuff) → Fits ns → FreeIsValid m → FreeIsValid (free_nodes_of ns m)
unfolding free_nodes_of
free_nodes_of-FreeIsValid [] m f v = v
free_nodes_of-FreeIsValid (n ∷ ns) m (h, b, hs) v =
    free_nodes_of-FreeIsValid ns (put_free_node m (reset_node n)) hs (freed m n v b)

-- the valid part of a node without its first `off` bytes
pub shorter :
    (n : Node) (off : ℕ)
    → off ≤ n.len
    → take (n.len - off) (drop (n.off + off) n.buff) ≡ drop off (take n.len (drop n.off n.buff))
shorter n off h =
    let sum : off + (n.len - off) ≡ n.len = omega (arith, h) in
    ap (take (n.len - off)) (sym (drop-drop off n.off n.buff))
    ∙ (sym (drop-take off (n.len - off) (drop n.off n.buff))
        ∙ ap (λ k. drop off (take k (drop n.off n.buff))) sum)

skip_loop-Kept :
    (ns : List Node) (off : ℕ) (m : Mbuff)
    → Fits ns
    → FreeIsValid m
    → Kept (drop off (chain_bytes ns)) (skip_loop ns off m).0 (skip_loop ns off m).1
unfolding skip_loop
skip_loop-Kept [] off m f v = record { fits = f; holds = sym (drop-nil off); free_valid = v }
skip_loop-Kept (n ∷ ns) off m (h, b, hs) v =
    let own : List ℕ = take n.len (drop n.off n.buff) in
    let width : length own ≡ n.len = length-bytes n h in
    elim (Bool-cases (off == 0)) [
      | inl nothing ↦
          let zero_off : off ≡ 0 = ground (arith, nothing) in
          let whole : own ++ chain_bytes ns ≡ drop off (own ++ chain_bytes ns) =
            ap (λ k. drop k (own ++ chain_bytes ns)) (sym zero_off) in
          rw nothing (record { fits = (h, b, hs); holds = whole; free_valid = v })
      | inr some_off ↦ elim (Bool-cases (ltb off n.len)) [
        | inl inside ↦
            let lt : off < n.len = ltb→lt off n.len inside in
            let nothing_more : off - length own ≡ 0 = omega (arith, lt, width) in
            let bytes : take (n.len - off) (drop (n.off + off) n.buff) ++ chain_bytes ns
                ≡ drop off (own ++ chain_bytes ns) =
              ap (λ x. x ++ chain_bytes ns) (shorter n off (omega (arith, lt)))
              ∙ (ap (λ k. drop off own ++ drop k (chain_bytes ns)) (sym nothing_more)
                  ∙ sym (drop-append off own (chain_bytes ns))) in
            rw (some_off, inside)
              (record { fits = (omega (arith, h, lt), b, hs); holds = bytes; free_valid = v })
        | inr beyond ↦
            let ge : n.len ≤ off = ground (arith, beyond) in
            let less : off - length own ≡ off - n.len = omega (arith, width) in
            let k =
              skip_loop-Kept ns (off - n.len) (put_free_node m (reset_node n)) hs (freed m n v b) in
            let bytes : drop (off - n.len) (chain_bytes ns) ≡ drop off (own ++ chain_bytes ns) =
              ap (λ k. drop k (chain_bytes ns)) (sym less)
              ∙ (ap (λ x. x ++ drop (off - length own) (chain_bytes ns))
                    (sym (drop-all off own (omega (arith, width, ge))))
                  ∙ sym (drop-append off own (chain_bytes ns))) in
            rw (some_off, beyond)
              (record { fits = k.fits; holds = k.holds ∙ bytes; free_valid = k.free_valid })
      ]
    ]

cut_loop-Kept :
    (ns : List Node) (len : ℕ) (m : Mbuff)
    → Fits ns
    → FreeIsValid m
    → Kept (take len (chain_bytes ns)) (cut_loop ns len m).0 (cut_loop ns len m).1
unfolding cut_loop
cut_loop-Kept [] len m f v = record { fits = f; holds = sym (take-nil len); free_valid = v }
cut_loop-Kept (n ∷ ns) len m (h, b, hs) v =
    let own : List ℕ = take n.len (drop n.off n.buff) in
    let width : length own ≡ n.len = length-bytes n h in
    elim (Bool-cases (leb len n.len)) [
      | inl here ↦
          let le : len ≤ n.len = leb→le len n.len here in
          let nothing_more : len - length own ≡ 0 = omega (arith, le, width) in
          let bytes : take len (drop n.off n.buff) ++ [] ≡ take len (own ++ chain_bytes ns) =
            ap (λ x. x ++ []) (sym (take-take len n.len (drop n.off n.buff) le))
            ∙ (ap (λ k. take len own ++ take k (chain_bytes ns)) (sym nothing_more)
                ∙ sym (take-append len own (chain_bytes ns))) in
          rw here (record {
            fits = (omega (arith, h, le), b, tt);
            holds = bytes;
            free_valid = free_nodes_of-FreeIsValid ns m hs v;
          })
      | inr further ↦
          let gt : n.len < len = ground (arith, further) in
          let less : len - length own ≡ len - n.len = omega (arith, width) in
          let k = cut_loop-Kept ns (len - n.len) m hs v in
          let bytes : own ++ take (len - n.len) (chain_bytes ns)
              ≡ take len (own ++ chain_bytes ns) =
            ap (λ j. own ++ take j (chain_bytes ns)) (sym less)
            ∙ (ap (λ x. x ++ take (len - length own) (chain_bytes ns))
                  (sym (take-all len own (omega (arith, width, gt))))
                ∙ sym (take-append len own (chain_bytes ns))) in
          rw further (record {
            fits = (h, b, k.fits);
            holds = ap (λ x. own ++ x) k.holds ∙ bytes;
            free_valid = k.free_valid;
          })
    ]

region-length :
    (ns : List Node) (len off : ℕ)
    → Fits ns
    → off + len ≤ compute_valid_size ns
    → length (take len (drop off (chain_bytes ns))) ≡ len
region-length ns len off f h = omega (
  arith,
  h,
  length-chain_bytes ns f,
  length-take len (drop off (chain_bytes ns)),
  length-drop off (chain_bytes ns),
)

-- What the two loops of `reslice` leave of an Mbuff with the nodes `ns`.
abbrev sliced : List Node → ℕ → ℕ → Mbuff → Mbuff
sliced ns len off m =
    let (kept, m₁) = skip_loop ns off m in
    let (cut, m₂) = cut_loop kept len m₁ in record m₂ { nodes = cut; valid_size = len }

sliced-IsValid :
    (m : Mbuff) (len off : ℕ)
    → IsValid m
    → off + len ≤ m.valid_size
    → IsValid (sliced m.nodes len off m)
      × (contents (sliced m.nodes len off m) ≡ take len (drop off (contents m)))
sliced-IsValid m len off v within =
    let start : FreeIsValid m = record {
      empty = v.empty;
      free_sized = v.free_sized;
      free_counted = v.free_counted;
    } in
    let skipped = skip_loop-Kept m.nodes off m v.fits start in
    let (kept, m₁) = skip_loop m.nodes off m in
    let cut = cut_loop-Kept kept len m₁ skipped.fits skipped.free_valid in
    let bytes : chain_bytes (cut_loop kept len m₁).0 ≡ take len (drop off (contents m)) =
      cut.holds ∙ ap (take len) skipped.holds in
    (
      record {
        fits = cut.fits;
        empty = cut.free_valid.empty;
        sized =
            sym (region-length m.nodes len off v.fits (omega (arith, within, v.sized)))
            ∙ (ap length (sym bytes) ∙ length-chain_bytes (cut_loop kept len m₁).0 cut.fits);
        free_sized = cut.free_valid.free_sized;
        free_counted = cut.free_valid.free_counted;
      },
      bytes,
    )

no_wrap : (s a : ℕ) → a ≤ s → s < 2 ^ 64 → ltb s (a % 2 ^ 64) ≡ false
no_wrap s a h k =
    let e : a % 2 ^ 64 ≡ a = mod-eq_of_lt (omega (arith, h, k)) in rw e (ground (arith, h))

has_nodes :
    (ns : List Node) (first second : Mbuff)
    → 0 < compute_valid_size ns
    → unless_empty ns first second ≡ some second
unfolding compute_valid_size
has_nodes [] first second h = absurd (omega (arith, h))
has_nodes (n ∷ ns) first second h = refl

reslice-sliced :
    (m : Mbuff) (len off : ℕ)
    → ltb m.valid_size ((off + len) % 2 ^ 64) ≡ false
    → len == 0 ≡ false
    → 0 < compute_valid_size m.nodes
    → reslice m len off ≡ some (sliced m.nodes len off m)
unfolding reslice
reslice-sliced m len off e some_len h =
    rw (e, some_len) (has_nodes m.nodes m (sliced m.nodes len off m) h)

-- `reslice` to a region of the data of a valid Mbuff, whose size is a 64-bit number, succeeds,
-- and gives a valid Mbuff that holds the region.
pub reslice_lem :
    (m : Mbuff) (len off : ℕ)
    → IsValid m
    → off + len ≤ m.valid_size
    → m.valid_size < 2 ^ 64
    → (m' : Mbuff) × (reslice m len off ≡ some m')
      × IsValid m'
      × (contents m' ≡ take len (drop off (contents m)))
unfolding reslice compute_valid_size
reslice_lem m len off v within small =
    let e = no_wrap m.valid_size (off + len) within small in
    elim (Bool-cases (len == 0)) [
      | inl zero_len ↦
          let start : FreeIsValid m = record {
            empty = v.empty;
            free_sized = v.free_sized;
            free_counted = v.free_counted;
          } in
          let all = free_nodes_of-FreeIsValid m.nodes m v.fits start in
          let len_zero : len ≡ 0 = ground (arith, zero_len) in
          (
            record (free_nodes_of m.nodes m) { nodes = []; valid_size = 0 },
            rw (e, zero_len) refl,
            record {
              fits = tt;
              empty = all.empty;
              sized = refl;
              free_sized = all.free_sized;
              free_counted = all.free_counted;
            },
            rw len_zero refl,
          )
      | inr some_len ↦
          let positive : 0 < len = ground (arith, some_len) in
          let (valid, bytes) = sliced-IsValid m len off v within in
          (
            sliced m.nodes len off m,
            reslice-sliced m len off e some_len (omega (arith, v.sized, within, positive)),
            valid,
            bytes,
          )
    ]
