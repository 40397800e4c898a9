-- ===== src/Mbuff.antt =====
-- src/include/uDepot/mbuff.hh and src/uDepot/mbuff.cc: a list of buffers whose valid parts, one behind
-- another, are the data of the Mbuff, and a list of free buffers. The valid list runs from `mb_head_`
-- to `mb_tail_`.
pub mod Append
pub mod Prepend
pub mod Reslice
pub mod Combine
pub mod Iterate
pub mod Valid
pub mod AppendRoom
pub mod AppendFills
pub mod ResliceKeeps
pub mod IterateReads
pub mod Trip
mod Tests
use u_depot.Base.{
  ℕ, zero, suc, ◌+◌, ◌-◌, ◌≤◌, Bool, true, false, Option, none, some, List, [], ◌∷◌, ◌++◌, ltb,
  ◌==◌, ◌||◌, if◌then◌else◌, length, take, drop,
}

-- `length buff` is `mb_buff_len_`; the successor is the next element of the list.
pub record Node : Type 0 where
  pub buff : List ℕ
  pub off : ℕ
  pub len : ℕ

pub record Mbuff : Type 0 where
  pub valid_size : ℕ
  pub nodes : List Node
  pub free_size : ℕ
  pub free_nodes : ℕ
  pub free : List Node

abbrev pub new_mbuff : Mbuff
new_mbuff = record { valid_size = 0; nodes = []; free_size = 0; free_nodes = 0; free = [] }

abbrev pub reset_node : Node → Node
reset_node n = record n { off = 0; len = 0 }

abbrev pub append_space : Node → ℕ
append_space n = length n.buff - (n.off + n.len)

abbrev pub prepend_space : Node → ℕ
prepend_space n = if n.len == 0 then length n.buff else n.off

-- the bytes of `len` from `off` on in the node's valid part
abbrev pub get_valid_chunk : Node → ℕ → ℕ → List ℕ
get_valid_chunk n off len = take len (drop (n.off + off) n.buff)

-- A chunk is the bytes it shows; it goes back to its node with the bytes that its user left in it.
abbrev pub get_append_chunk : Node → List ℕ
get_append_chunk n = drop (n.off + n.len) n.buff

abbrev pub put_append_chunk : List ℕ → ℕ → Node → Node
put_append_chunk bytes append_len n = record n {
  buff = take (n.off + n.len) n.buff ++ bytes;
  len = n.len + append_len;
}

abbrev pub get_prepend_chunk : Node → List ℕ
get_prepend_chunk n = take (prepend_space n) n.buff

abbrev pub put_prepend_chunk : List ℕ → ℕ → Node → Node
put_prepend_chunk bytes prepend_len n =
    let buff' = bytes ++ drop (prepend_space n) n.buff in
    if n.off == 0
    then (if n.len == 0
        then record { buff = buff'; off = length n.buff - prepend_len; len = prepend_len }
        else record { buff = buff'; off = n.off - prepend_len; len = n.len + prepend_len })
    else record { buff = buff'; off = n.off - prepend_len; len = n.len + prepend_len }

-- mb_tail_
abbrev pub tail : List Node → Option Node
tail [] = none
tail (n ∷ []) = some n
tail (n ∷ k ∷ ns) = tail (k ∷ ns)

abbrev pub on_tail : (Node → Node) → List Node → List Node
on_tail g [] = []
on_tail g (n ∷ []) = g n ∷ []
on_tail g (n ∷ k ∷ ns) = n ∷ on_tail g (k ∷ ns)

-- mb_head_
abbrev pub head : List Node → Option Node
head [] = none
head (n ∷ ns) = some n

abbrev pub on_head : (Node → Node) → List Node → List Node
on_head g [] = []
on_head g (n ∷ ns) = g n ∷ ns

pub get_free_node : Mbuff → Option (Node × Mbuff)
get_free_node m = elim m.free [
  | [] ↦ none
  | n ∷ rest ↦ some (
    n,
    record m {
      free = rest;
      free_size = m.free_size - length n.buff;
      free_nodes = m.free_nodes - 1;
    },
  )
]

abbrev pub put_free_node : Mbuff → Node → Mbuff
put_free_node m n = record m {
  free = n ∷ m.free;
  free_size = m.free_size + length n.buff;
  free_nodes = m.free_nodes + 1;
}

abbrev pub add_buff : Mbuff → List ℕ → Mbuff
add_buff m buff = put_free_node m (record { buff = buff; off = 0; len = 0 })

pub get_free_buff : Mbuff → Option (List ℕ × Mbuff)
get_free_buff m = elim (get_free_node m) [ none ↦ none | some (n, m') ↦ some (n.buff, m') ]

-- The `do while` loop. Each round takes a free buffer of `src`: fuel beyond their number is enough.
pub move_loop : ℕ → Mbuff → Mbuff → ℕ → ℕ → Mbuff × Mbuff × ℕ
move_loop zero src dst max_size moved = (src, dst, moved)
move_loop (suc fuel) src dst max_size moved = elim (get_free_buff src) [
  | none ↦ (src, dst, moved)
  | some (buff, src') ↦
      let moved' = moved + length buff in
      let rest = move_loop fuel src' (add_buff dst buff) max_size moved' in
      if ltb moved' max_size then rest else (src', add_buff dst buff, moved')
]

-- the source, the destination, and the bytes moved
pub move_free_buffs_to : Mbuff → Mbuff → ℕ → Mbuff × Mbuff × ℕ
move_free_buffs_to src dst max_size = move_loop (length src.free + 1) src dst max_size 0

pub nodes_nr : List Node → ℕ
nodes_nr [] = 0
nodes_nr (n ∷ ns) = nodes_nr ns + 1

pub compute_valid_size : List Node → ℕ
compute_valid_size [] = 0
compute_valid_size (n ∷ ns) = n.len + compute_valid_size ns

pub append_avail_size : Mbuff → ℕ
append_avail_size m = m.free_size + (elim (tail m.nodes) [ none ↦ 0 | some n ↦ append_space n ])

-- `!!` of a number that is positive
abbrev pub flag : Bool → ℕ
flag true = 1
flag false = 0

pub append_avail_nchunks : Mbuff → ℕ
append_avail_nchunks m =
    m.free_nodes + (elim (tail m.nodes) [ none ↦ 0 | some n ↦ flag (ltb 0 (append_space n)) ])

-- The buffers given back to the caller, which frees them, and the Mbuff; `mb_valid_size_` stays.
pub reset : Mbuff → Mbuff
reset m = record m { nodes = []; free = []; free_size = 0; free_nodes = 0 }
