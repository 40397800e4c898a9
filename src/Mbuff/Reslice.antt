-- ===== src/Mbuff/Reslice.antt =====
-- src/uDepot/mbuff.cc: `reslice`, which narrows the valid data of an Mbuff.
use u_depot.Base.{
  ℕ, ◌+◌, ◌-◌, ◌%◌, ◌^◌, Option, none, some, List, [], ◌∷◌, ltb, leb, ◌==◌, if◌then◌else◌,
}
use u_depot.Mbuff.{Node, Mbuff, reset_node, put_free_node}

-- The loops that put a chain of nodes on the free list.
unfoldable pub free_nodes_of : List Node → Mbuff → Mbuff
free_nodes_of [] m = m
free_nodes_of (n ∷ ns) m = free_nodes_of ns (put_free_node m (reset_node n))

-- The first loop of `reslice`, over the nodes from `mb_head_` on: the nodes that stay, and the Mbuff
-- with the others on its free list. The loop stops in time while the nodes hold `off` bytes.
unfoldable pub skip_loop : List Node → ℕ → Mbuff → List Node × Mbuff
skip_loop [] off m = ([], m)
skip_loop (n ∷ ns) off m =
    let rest = skip_loop ns (off - n.len) (put_free_node m (reset_node n)) in
    if off == 0
    then (n ∷ ns, m)
    else if ltb off n.len
    then (record n { off = n.off + off; len = n.len - off } ∷ ns, m)
    else rest

-- The second loop and the truncation: the nodes up to the one where `len` ends.
unfoldable pub cut_loop : List Node → ℕ → Mbuff → List Node × Mbuff
cut_loop [] len m = ([], m)
cut_loop (n ∷ ns) len m =
    let (kept, m') = cut_loop ns (len - n.len) m in
    if leb len n.len then (record n { len = len } ∷ [], free_nodes_of ns m) else (n ∷ kept, m')

-- `first` when there is no `mb_head_`
abbrev pub unless_empty : List Node → Mbuff → Mbuff → Option Mbuff
unless_empty [] first second = some first
unless_empty (n ∷ ns) first second = some second

-- `none` is -1. The sum of the sizes wraps around.
unfoldable pub reslice : Mbuff → ℕ → ℕ → Option Mbuff
reslice m len off =
    if ltb m.valid_size ((off + len) % 2 ^ 64)
    then none
    else if len == 0
    then some (record (free_nodes_of m.nodes m) { nodes = []; valid_size = 0 })
    else unless_empty m.nodes m (
        let (kept, m₁) = skip_loop m.nodes off m in
        let (cut, m₂) = cut_loop kept len m₁ in record m₂ { nodes = cut; valid_size = len })
