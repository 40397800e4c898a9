-- ===== src/Map/Restore.antt =====
-- src/uDepot/lsa/udepot-map.cc: the constructor, `restore` and `init`. The memory of the table is the
-- list of the words in it, or `none` for the null pointer.
use u_depot.Base.{
  ℕ, zero, suc, ◌+◌, ◌-◌, ◌*◌, ◌/◌, ◌||◌, Option, none, some, List, [], ltb, leb, ◌==◌,
  if◌then◌else◌, length, replicate, sub64,
}
use u_depot.HashEntry.{HashEntry, bucket_size, erased_entry}
use u_depot.Map.{Map, max_lock_nr}
use u_depot.Map.Locks.{reach}
use u_depot.Util.{num_bits, align_down, udiv_round_up, round_down_pow2}

-- uDepotMap()
abbrev pub new_map : Map
new_map = record {
  entry_nr = 0;
  ht = [];
  size = 0;
  entry_per_lock_nr = 0;
  lock_nr = max_lock_nr;
  entry_nr_bits = 0;
  used_entry_nr = replicate max_lock_nr 0;
}

-- sizeof(HashEntry)
abbrev pub entry_size : ℕ
entry_size = 8

-- Halves the number of locks until one lock covers the reach of an operation. A u32 is halved at
-- most 32 times before it is 1; from 0 the loop would not end, which is `none` here.
unfoldable pub lock_loop : ℕ → ℕ → ℕ → Option (ℕ × ℕ)
lock_loop zero entry_nr lock_nr = none
lock_loop (suc fuel) entry_nr lock_nr =
    let rest = lock_loop fuel entry_nr (lock_nr / 2) in
    if lock_nr == 1
    then some (lock_nr, entry_nr)
    else if leb reach (udiv_round_up entry_nr lock_nr)
    then some (lock_nr, udiv_round_up entry_nr lock_nr)
    else rest

pub data Restored : Type 0 where
  ready : Map → Restored
  einval : Restored
  diverges : Restored

-- the fields that `restore` sets, once the number of entries is known
abbrev pub set_sizes : Map → ℕ → List HashEntry → ℕ × ℕ → Map
set_sizes m entry_nr words (locks, per_lock) = record m {
  entry_nr = entry_nr;
  ht = words;
  size = entry_nr * entry_size;
  entry_per_lock_nr = per_lock;
  lock_nr = locks;
  entry_nr_bits = num_bits (sub64 (sub64 entry_nr bucket_size) 1);
}

unfoldable pub restore_entries : Map → ℕ → ℕ → List HashEntry → Restored
restore_entries m lock_nr entry_nr words = elim (lock_loop 33 entry_nr lock_nr) [
  | none ↦ diverges
  | some locks ↦ ready (set_sizes m entry_nr words locks)
]

unfoldable pub restore : Map → ℕ → ℕ → Option (List HashEntry) → Restored
restore m lock_nr size none = einval
restore m lock_nr size (some words) =
    let size_aligned = align_down size entry_size in
    let entry_nr = size_aligned / entry_size in
    if size_aligned == 0 || ltb entry_nr bucket_size
    then einval
    else restore_entries m lock_nr (round_down_pow2 (entry_nr - bucket_size) + bucket_size) words

-- `memset(ht, -1, size)`
unfoldable pub erase_table : Restored → Restored
erase_table (ready m) = ready (record m { ht = replicate (length m.ht) erased_entry })
erase_table other = other

unfoldable pub init : Map → ℕ → ℕ → Option (List HashEntry) → Restored
init m lock_nr size ht = erase_table (restore m lock_nr size ht)
