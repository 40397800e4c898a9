-- ===== src/Mbuff/Combine.antt =====
-- src/include/uDepot/mbuff.hh: the helpers that work on two Mbuffs or on an iovec, and the total size.
use u_depot.Base.{
  ℕ, zero, suc, ◌+◌, ◌-◌, min, not, ◌&&◌, ◌||◌, Option, none, some, List, [], ◌∷◌, ltb, ◌==◌,
  if◌then◌else◌, length, take, drop,
}
use u_depot.Mbuff.{Node, Mbuff, head, tail, get_valid_chunk}
use u_depot.Mbuff.Append.{Fn, append, append_from_buffer}
use u_depot.Mbuff.Prepend.{prepend_from_buffer}
use u_depot.Mbuff.Iterate.{Iterator, is_valid, next, iterate_valid_init, same_bytes}

-- The loop of `append_from_mbuff`, with the Mbuff that grows; `none` is out of fuel. The source is
-- another Mbuff.
unfoldable pub append_from_loop : ℕ → Iterator → Mbuff → ℕ → ℕ → Option (Mbuff × ℕ)
append_from_loop zero it m len copied = none
append_from_loop (suc fuel) it m len copied =
    if not (is_valid it)
    then some (m, copied)
    else elim (append_from_buffer m (take (min (len - copied) (length it.chunk)) it.chunk)) [
      | none ↦ none
      | some (m', copied_iter) ↦ append_from_loop fuel (next it) m' len (copied + copied_iter)
    ]

unfoldable pub append_from_mbuff : Mbuff → Mbuff → ℕ → ℕ → Option (Mbuff × ℕ)
append_from_mbuff m mbuff_in mbuff_off len = elim (iterate_valid_init mbuff_in mbuff_off len) [
  | none ↦ some (m, 0)
  | some it ↦ append_from_loop (length it.nodes + 1) it m len 0
]

-- Only the first chunk is prepended.
unfoldable pub prepend_from_mbuff : Mbuff → Mbuff → ℕ → ℕ → Option (Mbuff × ℕ)
prepend_from_mbuff m mbuff_in mbuff_off len = elim (iterate_valid_init mbuff_in mbuff_off len) [
  | none ↦ some (m, 0)
  | some it ↦
      if not (is_valid it)
      then some (m, 0)
      else prepend_from_buffer m (take (min len (length it.chunk)) it.chunk)
]

-- The results of `mem_compare`; `failed_assertion` is an iterator that is not valid where the code
-- asserts that it is.
pub data MemCompare : Type 0 where
  equal : MemCompare
  unequal : MemCompare
  bad_range : MemCompare
  failed_assertion : MemCompare
  out_of_fuel : MemCompare

-- how far a comparison is in the chunks of an iterator
pub record Cursor : Type 0 where
  pub iter : Iterator
  pub off : ℕ

abbrev pub advance : Cursor → ℕ → Cursor
advance c cmp_len =
    if c.off + cmp_len == length c.iter.chunk
    then record { iter = next c.iter; off = 0 }
    else record c { off = c.off + cmp_len }

unfoldable pub mem_compare_loop : ℕ → Cursor → Cursor → ℕ → ℕ → MemCompare
mem_compare_loop zero c1 c2 len total = out_of_fuel
mem_compare_loop (suc fuel) c1 c2 len total =
    let cmp_len = min (length c1.iter.chunk - c1.off) (length c2.iter.chunk - c2.off) in
    let c1' = advance c1 cmp_len in
    let c2' = advance c2 cmp_len in
    let rest = mem_compare_loop fuel c1' c2' len (total + cmp_len) in
    if not (is_valid c1.iter && is_valid c2.iter)
    then failed_assertion
    else if not (same_bytes cmp_len (drop c1.off c1.iter.chunk) (drop c2.off c2.iter.chunk))
    then unequal
    else if total + cmp_len == len
    then equal
    else rest

-- Each round ends a chunk of one of the two.
unfoldable pub mem_compare : Mbuff → ℕ → Mbuff → ℕ → ℕ → MemCompare
mem_compare mb1 mb1_off mb2 mb2_off len = elim (iterate_valid_init mb1 mb1_off len) [
  | none ↦ bad_range
  | some i1 ↦ elim (iterate_valid_init mb2 mb2_off len) [
    | none ↦ bad_range
    | some i2 ↦
        mem_compare_loop (length i1.nodes + length i2.nodes + 1) (record { iter = i1; off = 0 })
          (record { iter = i2; off = 0 }) len 0
  ]
]

-- What the function in `fill_iovec_append` captures; the iovec is the sizes of its entries, last first.
pub record IovecState : Type 0 where
  pub rem : ℕ
  pub iov_idx : ℕ
  pub iov : List ℕ

abbrev pub fill_entry : ℕ → Fn IovecState
fill_entry iov_len s b =
    let len = min (length b) s.rem in
    if s.iov_idx == iov_len || len == 0
    then record { state = s; bytes = b; count = 0 }
    else record {
      state = record { rem = s.rem - len; iov_idx = s.iov_idx + 1; iov = len ∷ s.iov };
      bytes = b;
      count = len;
    }

-- the Mbuff, and the state, whose `iov_idx` and whose `rem` give the result
unfoldable pub fill_iovec_append : Mbuff → ℕ → ℕ → Option (Mbuff × IovecState)
fill_iovec_append m len iov_len =
    append (fill_entry iov_len) m (record { rem = len; iov_idx = 0; iov = [] })

-- the space of a node beside its valid part
abbrev pub slack : Option Node → ℕ
slack none = 0
slack (some n) = length n.buff - n.len

-- The head and the tail are one node where the list has one node.
unfoldable pub get_total_size : Mbuff → ℕ
get_total_size m =
    m.free_size
    + m.valid_size
    + slack (head m.nodes)
    + (if ltb 1 (length m.nodes) then slack (tail m.nodes) else 0)

-- `none` is the invalid chunk.
unfoldable pub get_valid_single_buffer : Mbuff → Option (List ℕ)
get_valid_single_buffer m = elim m.nodes [
  | [] ↦ none
  | n ∷ ns ↦ if ltb 0 (length ns) then none else some (get_valid_chunk n 0 n.len)
]
