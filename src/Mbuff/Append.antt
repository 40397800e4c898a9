-- ===== src/Mbuff/Append.antt =====
-- src/uDepot/mbuff.cc and src/include/uDepot/mbuff.hh: appending, with a caller's function that fills
-- the chunks, and the helpers that append.
use u_depot.Base.{
  ℕ, zero, suc, ◌+◌, ◌-◌, min, Option, none, some, List, [], ◌∷◌, ◌++◌, ◌||◌, ltb, ◌==◌,
  if◌then◌else◌, length, take, drop, replicate,
}
use u_depot.Mbuff.{
  Mbuff, append_space, get_append_chunk, put_append_chunk, tail, on_tail, get_free_node,
}

-- What a call of an `AppendFn` or a `PrependFn` leaves: its captured variables, the bytes of the chunk,
-- and the size it returns.
pub record Call (S : Type 0) : Type 0 where
  pub state : S
  pub bytes : List ℕ
  pub count : ℕ

abbrev pub Fn : Type 0 → Type 0
Fn S = S → List ℕ → Call S

unfoldable pub append_new : Mbuff → Option Mbuff
append_new m = elim (get_free_node m) [
  | none ↦ none
  | some (n, m') ↦ some (record m' { nodes = m'.nodes ++ n ∷ [] })
]

-- `none` is the invalid chunk; otherwise the chunk is the tail's.
unfoldable pub append_prepare : Mbuff → Option Mbuff
append_prepare m = elim (tail m.nodes) [
  | none ↦ append_new m
  | some n ↦ if ltb 0 (append_space n) then some m else append_new m
]

abbrev pub tail_chunk : Mbuff → List ℕ
tail_chunk m = elim (tail m.nodes) [ none ↦ [] | some n ↦ get_append_chunk n ]

abbrev pub append_finalize : Mbuff → List ℕ → ℕ → Mbuff
append_finalize m bytes append_len = record m {
  nodes = on_tail (put_append_chunk bytes append_len) m.nodes;
  valid_size = m.valid_size + append_len;
}

module _ {S : Type 0} (f : Fn S) where
  -- The loop of `append`; `none` is out of fuel.
  unfoldable pub append_loop : ℕ → Mbuff → S → Option (Mbuff × S)
  append_loop zero m s = none
  append_loop (suc fuel) m s = elim (append_prepare m) [
    | none ↦ some (m, s)
    | some m₁ ↦
        let avail = length (tail_chunk m₁) in
        let c = f s (tail_chunk m₁) in
        let m₂ = append_finalize m₁ c.bytes c.count in
        let rest = append_loop fuel m₂ c.state in
        if c.count == 0 || ltb c.count avail then some (m₂, c.state) else rest
  ]

  -- Each round but the first and the last takes a free node.
  unfoldable pub append : Mbuff → S → Option (Mbuff × S)
  append m s = append_loop (length m.free + 2) m s

  pub append_inline : Mbuff → S → Mbuff × S
  append_inline m s = elim (tail m.nodes) [
    | none ↦ (m, s)
    | some n ↦
        if ltb 0 (append_space n)
        then (let c = f s (get_append_chunk n) in (append_finalize m c.bytes c.count, c.state))
        else (m, s)
  ]

-- The variables that the function in `append_from_buffer` captures.
pub record Copy : Type 0 where
  pub remaining : ℕ
  pub copied : ℕ

abbrev pub copy_in : List ℕ → Fn Copy
copy_in src s dst =
    let cp_len = min s.remaining (length dst) in
    record {
      state = record { remaining = s.remaining - cp_len; copied = s.copied + cp_len };
      bytes = take cp_len (drop s.copied src) ++ drop cp_len dst;
      count = cp_len;
    }

abbrev pub copied_of : Option (Mbuff × Copy) → Option (Mbuff × ℕ)
copied_of none = none
copied_of (some (m, s)) = some (m, s.copied)

unfoldable pub append_from_buffer : Mbuff → List ℕ → Option (Mbuff × ℕ)
append_from_buffer m src =
    copied_of (append (copy_in src) m (record { remaining = length src; copied = 0 }))

abbrev pub skip : Fn ℕ
skip rem b = let x = min (length b) rem in record { state = rem - x; bytes = b; count = x }

unfoldable pub append_uninitialized : Mbuff → ℕ → Option (Mbuff × ℕ)
append_uninitialized m size = append skip m size

abbrev pub set_all : ℕ → Fn ℕ
set_all val rem b =
    let x = min (length b) rem in
    record { state = rem - x; bytes = replicate (length b) val; count = x }

pub append_val : Mbuff → ℕ → ℕ → Option (Mbuff × ℕ)
append_val m size val = append (set_all val) m size
