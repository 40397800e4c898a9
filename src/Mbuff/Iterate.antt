-- ===== src/Mbuff/Iterate.antt =====
-- src/uDepot/mbuff.cc and src/include/uDepot/mbuff.hh: iterators over the valid data of an Mbuff, and
-- the helpers that read through them.
use u_depot.Base.{
  ℕ, zero, suc, ◌+◌, ◌-◌, ◌%◌, ◌^◌, min, Bool, true, false, ◌&&◌, Option, none, some, List, [], ◌∷◌,
  ◌++◌, ltb, ◌==◌, if◌then◌else◌, length, take, drop,
}
use u_depot.Mbuff.{Node, Mbuff, get_valid_chunk}

-- `nodes` are `i_node_` and its successors; an invalid iterator has none.
pub record Iterator : Type 0 where
  pub nodes : List Node
  pub len : ℕ
  pub chunk : List ℕ

abbrev pub invalid : Iterator
invalid = record { nodes = []; len = 0; chunk = [] }

unfoldable pub find_node : List Node → ℕ → List Node × ℕ
find_node [] off = ([], 0)
find_node (n ∷ ns) off =
    let rest = find_node ns (off - n.len) in if ltb off n.len then (n ∷ ns, off) else rest

abbrev pub iterate_at : List Node → ℕ → ℕ → Iterator
iterate_at [] node_off len = invalid
iterate_at (n ∷ ns) node_off len = record {
  nodes = n ∷ ns;
  len = len;
  chunk = get_valid_chunk n node_off (min len (n.len - node_off));
}

unfoldable pub do_initialize_iterator : Mbuff → ℕ → ℕ → Iterator
do_initialize_iterator m off len =
    let (ns, node_off) = find_node m.nodes off in iterate_at ns node_off len

-- `none` is EINVAL. The sum of the sizes wraps around.
unfoldable pub iterate_valid_init : Mbuff → ℕ → ℕ → Option Iterator
iterate_valid_init m off len =
    if len == 0
    then some invalid
    else if ltb m.valid_size ((off + len) % 2 ^ 64)
    then none
    else some (do_initialize_iterator m off len)

unfoldable pub iterate_valid_partial_init : Mbuff → ℕ → ℕ → Option Iterator
iterate_valid_partial_init m off len =
    if ltb m.valid_size off
    then none
    else (let len' = min len (m.valid_size - off) in
        if len' == 0 then some invalid else some (do_initialize_iterator m off len'))

abbrev pub is_valid : Iterator → Bool
is_valid it = elim it.nodes [ [] ↦ false | n ∷ ns ↦ true ]

abbrev pub next_at : List Node → ℕ → Iterator
next_at [] len = record { nodes = []; len = len; chunk = [] }
next_at (n ∷ ns) len = record {
  nodes = n ∷ ns;
  len = len;
  chunk = get_valid_chunk n 0 (min len n.len);
}

-- Iterator::next; on an iterator that runs out of nodes early, `i_len_` stays.
unfoldable pub next : Iterator → Iterator
next it = elim it.nodes [
  | [] ↦ it
  | n ∷ ns ↦ let len = it.len - length it.chunk in if len == 0 then invalid else next_at ns len
]

-- The loop of `copy_to_buffer`: the bytes it copies. Each round drops a node of the iterator.
unfoldable pub copy_loop : ℕ → Iterator → ℕ → ℕ → List ℕ
copy_loop zero it len copied = []
copy_loop (suc fuel) it len copied =
    let cp_len = min (len - copied) (length it.chunk) in
    let rest = copy_loop fuel (next it) len (copied + cp_len) in
    if is_valid it then take cp_len it.chunk ++ rest else []

unfoldable pub copy_to_buffer : Mbuff → ℕ → ℕ → List ℕ
copy_to_buffer m mbuff_off len = elim (iterate_valid_partial_init m mbuff_off len) [
  | none ↦ []
  | some it ↦ copy_loop (length it.nodes + 1) it it.len 0
]

-- memcmp(a, b, n) == 0, on buffers that hold `n` bytes
unfoldable pub same_bytes : ℕ → List ℕ → List ℕ → Bool
same_bytes zero a b = true
same_bytes (suc n) [] b = false
same_bytes (suc n) (x ∷ a) [] = false
same_bytes (suc n) (x ∷ a) (y ∷ b) = x == y && same_bytes n a b

-- The results 0, 1 and EINVAL of `mem_compare_buffer`.
pub data Compared : Type 0 where
  same : Compared
  different : Compared
  einval : Compared

unfoldable pub compare_loop : ℕ → Iterator → List ℕ → ℕ → ℕ → Compared
compare_loop zero it buff remaining buff_off = same
compare_loop (suc fuel) it buff remaining buff_off =
    let comp_len = min remaining (length it.chunk) in
    let rest = compare_loop fuel (next it) buff (remaining - comp_len) (buff_off + comp_len) in
    if ltb 0 remaining && is_valid it
    then (if same_bytes comp_len it.chunk (drop buff_off buff) then rest else different)
    else same

unfoldable pub mem_compare_buffer : Mbuff → ℕ → List ℕ → ℕ → Compared
mem_compare_buffer m mbuff_off buff len = elim (iterate_valid_init m mbuff_off len) [
  | none ↦ einval
  | some it ↦ compare_loop (length it.nodes + 1) it buff len 0
]

-- The chunks that `fill_iovec_valid` puts in an iovec of `iov_size` entries.
unfoldable pub iovec_loop : ℕ → Iterator → List (List ℕ)
iovec_loop zero it = []
iovec_loop (suc iov_size) it =
    let rest = iovec_loop iov_size (next it) in if is_valid it then it.chunk ∷ rest else []

unfoldable pub fill_iovec_valid : Mbuff → ℕ → ℕ → ℕ → Option (List (List ℕ))
fill_iovec_valid m mbuff_off len iov_size = elim (iterate_valid_init m mbuff_off len) [
  | none ↦ none
  | some it ↦ some (iovec_loop iov_size it)
]

unfoldable pub nchunks_loop : ℕ → Iterator → ℕ → ℕ
nchunks_loop zero it len = 0
nchunks_loop (suc fuel) it len =
    let rest = nchunks_loop fuel (next it) (len - min (length it.chunk) len) in
    if ltb 0 len && is_valid it then rest + 1 else 0

unfoldable pub get_valid_nchunks : Mbuff → ℕ → ℕ → Option ℕ
get_valid_nchunks m mbuff_off len = elim (iterate_valid_init m mbuff_off len) [
  | none ↦ none
  | some it ↦ some (nchunks_loop (length it.nodes + 1) it len)
]
