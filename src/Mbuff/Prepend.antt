-- ===== src/Mbuff/Prepend.antt =====
-- src/uDepot/mbuff.cc and src/include/uDepot/mbuff.hh: prepending, with a caller's function that fills
-- the chunks, and `prepend_from_buffer`.
use u_depot.Base.{
  ℕ, zero, suc, ◌+◌, ◌-◌, min, Option, none, some, List, [], ◌∷◌, ◌++◌, ◌||◌, ltb, ◌==◌,
  if◌then◌else◌, length, take, drop,
}
use u_depot.Mbuff.{
  Mbuff, prepend_space, get_prepend_chunk, put_prepend_chunk, head, on_head, get_free_node,
}
use u_depot.Mbuff.Append.{Fn, Copy, copied_of}

unfoldable pub prepend_new : Mbuff → Option Mbuff
prepend_new m = elim (get_free_node m) [
  | none ↦ none
  | some (n, m') ↦ some (record m' { nodes = n ∷ m'.nodes })
]

-- `none` is the invalid chunk; otherwise the chunk is the head's.
unfoldable pub prepend_prepare : Mbuff → Option Mbuff
prepend_prepare m = elim (head m.nodes) [
  | none ↦ prepend_new m
  | some n ↦ if ltb 0 (prepend_space n) then some m else prepend_new m
]

abbrev pub head_chunk : Mbuff → List ℕ
head_chunk m = elim (head m.nodes) [ none ↦ [] | some n ↦ get_prepend_chunk n ]

abbrev pub prepend_finalize : Mbuff → List ℕ → ℕ → Mbuff
prepend_finalize m bytes prepend_len = record m {
  nodes = on_head (put_prepend_chunk bytes prepend_len) m.nodes;
  valid_size = m.valid_size + prepend_len;
}

module _ {S : Type 0} (f : Fn S) where
  -- The loop of `prepend`; `none` is out of fuel.
  unfoldable pub prepend_loop : ℕ → Mbuff → S → Option (Mbuff × S)
  prepend_loop zero m s = none
  prepend_loop (suc fuel) m s = elim (prepend_prepare m) [
    | none ↦ some (m, s)
    | some m₁ ↦
        let avail = length (head_chunk m₁) in
        let c = f s (head_chunk m₁) in
        let m₂ = prepend_finalize m₁ c.bytes c.count in
        let rest = prepend_loop fuel m₂ c.state in
        if c.count == 0 || ltb c.count avail then some (m₂, c.state) else rest
  ]

  -- Each round but the first and the last takes a free node.
  unfoldable pub prepend : Mbuff → S → Option (Mbuff × S)
  prepend m s = prepend_loop (length m.free + 2) m s

  pub prepend_inline : Mbuff → S → Mbuff × S
  prepend_inline m s = elim (head m.nodes) [
    | none ↦ (m, s)
    | some n ↦
        if ltb 0 (prepend_space n)
        then (let c = f s (get_prepend_chunk n) in (prepend_finalize m c.bytes c.count, c.state))
        else (m, s)
  ]

abbrev pub copy_before : List ℕ → Fn Copy
copy_before src s dst =
    let cp_len = min s.remaining (length dst) in
    record {
      state = record { remaining = s.remaining - cp_len; copied = s.copied + cp_len };
      bytes = take (length dst - cp_len) dst ++ take cp_len (drop (s.remaining - cp_len) src);
      count = cp_len;
    }

unfoldable pub prepend_from_buffer : Mbuff → List ℕ → Option (Mbuff × ℕ)
prepend_from_buffer m src =
    copied_of (prepend (copy_before src) m (record { remaining = length src; copied = 0 }))
