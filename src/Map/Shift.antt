-- ===== src/Map/Shift.antt =====
-- src/include/uDepot/lsa/udepot-map.hh: `try_shift` and `try_shift_one`, which make room in a bucket
-- by moving entries to other slots of their own buckets.
use mathlib.Core.Bool.{xor}
use u_depot.Base.{
  ℕ, zero, suc, ◌+◌, ◌-◌, ◌*◌, ◌%◌, ◌^◌, min, max, not, ◌&&◌, Option, none, some, ltb, leb,
  if◌then◌else◌, sub64, low32,
}
use u_depot.HashEntry.{bucket_size, hop_off_bits, deleted, used}
use u_depot.Map.{Map, max_bucket_displace, at, write, hash_to_hb, entry_keyfp, next_free}

abbrev pub set_offset : Map → ℕ → ℕ → Map
set_offset m p offset = write m p (record (at m p) { bucket_offset = offset % 2 ^ hop_off_bits })

-- The swap of `try_shift_one`, once `next_free` has found `victim`.
unfoldable pub swap_slots : Map → ℕ → ℕ → Map
swap_slots m candidate victim =
    let hb = hash_to_hb m (entry_keyfp m candidate) in
    let tmp = at m candidate in
    let m₁ = write m candidate (at m victim) in
    let m₂ = write m₁ victim tmp in
    let m₃ = set_offset m₂ victim (sub64 victim hb) in
    if used (at m₃ candidate)
    then set_offset m₃ candidate (sub64 candidate (hash_to_hb m₃ (entry_keyfp m₃ candidate)))
    else m₃

-- `none` is ENOSPC.
unfoldable pub try_shift_one : Map → ℕ → Option Map
try_shift_one m candidate = elim (next_free m (entry_keyfp m candidate)) [
  | none ↦ none
  | some victim ↦ some (swap_slots m candidate victim)
]

-- the first slot from `p` on that is unused or deleted
unfoldable pub empty_loop : Map → ℕ → ℕ → Option ℕ
empty_loop m p zero = none
empty_loop m p (suc n) =
    let rest = empty_loop m (p + 1) n in
    if xor (not (used (at m p))) (deleted (at m p)) then some p else rest

-- How the displacement ended: with a slot for the caller, with ENOSPC, or out of fuel.
pub data Shifted : Type 0 where
  room : Map → ℕ → Shifted
  full : Map → Shifted
  unfinished : Shifted

-- The loop that displaces backwards from `p_free`.
unfoldable pub shift_loop : ℕ → Map → ℕ → ℕ → ℕ → Shifted
shift_loop zero m first p_free p = unfinished
shift_loop (suc fuel) m first p_free p =
    if leb first p && ltb p p_free
    then elim (try_shift_one m p) [
      | none ↦ shift_loop fuel m first p_free (p + 1)
      | some m' ↦
          if ltb (p - first) bucket_size
          then room m' p
          else shift_loop fuel m' first p (max first (p + 1 - bucket_size))
    ]
    else full m

-- Enough rounds for `shift_loop`: `p_free` falls at most to `first`, and `p` rises at most
-- `bucket_size` times for each `p_free`.
abbrev pub shift_fuel : ℕ
shift_fuel = bucket_size * max_bucket_displace * bucket_size + bucket_size

unfoldable pub try_shift : Map → ℕ → Shifted
unfolding empty_loop shift_loop
try_shift m h =
    let first = low32 (hash_to_hb m h) in
    let last =
      min (first + bucket_size * max_bucket_displace) (sub64 (sub64 m.entry_nr bucket_size) 1) in
    elim (empty_loop m (first + bucket_size) (last - (first + bucket_size))) [
      | none ↦ full m
      | some p_free ↦ shift_loop shift_fuel m first p_free (p_free + 1 - bucket_size)
    ]
