-- ===== src/Map.antt =====
-- src/include/uDepot/lsa/udepot-map.hh: the hopscotch hash table. A `HashEntry *` is the index of a
-- slot; a read out of the table gives an empty entry.
pub mod Shift
pub mod Locks
pub mod Restore
pub mod Keys
pub mod Scan
pub mod Lookup
pub mod Changes
pub mod Insert
pub mod Remove
pub mod Geometry
pub mod LockCover
pub mod Displace
pub mod ShiftKeeps
pub mod Tests
mod ShiftTests
use u_depot.Base.{
  ℕ, zero, suc, ◌+◌, ◌-◌, ◌*◌, ◌/◌, ◌%◌, ◌^◌, min, max, bit_and, bit_or, Bool, true, false, not,
  ◌&&◌, ◌||◌, Option, none, some, List, ltb, leb, ◌==◌, if◌then◌else◌, get_or, set, sub64, shl64,
  low32,
}
use u_depot.HashEntry.{
  HashEntry, bucket_size, keytag_bits, hop_off_bits, pba_bits, max_kv_size, empty_entry, deleted,
  used, set_deleted, purge_entry,
}
use mathlib.Core.Bool.{xor}

abbrev pub max_bucket_displace : ℕ
max_bucket_displace = 64

abbrev pub max_lock_nr : ℕ
max_lock_nr = 8192

pub record Map : Type 0 where
  pub entry_nr : ℕ
  pub ht : List HashEntry
  pub size : ℕ
  pub entry_per_lock_nr : ℕ
  pub lock_nr : ℕ
  pub entry_nr_bits : ℕ
  pub used_entry_nr : List ℕ

abbrev pub at : Map → ℕ → HashEntry
at m p = get_or m.ht p empty_entry

abbrev pub write : Map → ℕ → HashEntry → Map
write m p e = record m { ht = set m.ht p e }

-- hash_to_keytag_
pub hash_to_keytag : Map → ℕ → ℕ
hash_to_keytag m h = bit_and (h / 2 ^ m.entry_nr_bits) (2 ^ keytag_bits - 1)

-- hash_to_keyfp_
unfoldable pub hash_to_keyfp : Map → ℕ → ℕ
hash_to_keyfp m h = bit_and h (2 ^ (keytag_bits + m.entry_nr_bits) - 1)

-- hash_to_hb_
pub hash_to_hb : Map → ℕ → ℕ
hash_to_hb m h = bit_and h (sub64 (sub64 m.entry_nr bucket_size) 1)

pub entry_keyfp : Map → ℕ → ℕ
entry_keyfp m p =
    let offset = sub64 p (at m p).bucket_offset in
    bit_or (shl64 (at m p).key_tag m.entry_nr_bits) offset

-- 0 with the matching slot, ENODATA with the slot for a new entry, or ENOSPC
pub data Found : Type 0 where
  hit : ℕ → Found
  miss : ℕ → Found
  no_space : Found

-- the first loop of `lookup`, over `n` slots from `p`
pub match_loop : Map → ℕ → ℕ → ℕ → Option ℕ
match_loop m to_match p zero = none
match_loop m to_match p (suc n) =
    let rest = match_loop m to_match (p + 1) n in
    if not (used (at m p))
    then none
    else if used (at m p) && not (deleted (at m p)) && to_match == entry_keyfp m p
    then some p
    else rest

-- the second loop of `lookup`
pub candidate_loop : Map → Option ℕ → ℕ → ℕ → Option ℕ
candidate_loop m candidate p zero = candidate
candidate_loop m candidate p (suc n) =
    let rest = candidate_loop m (if deleted (at m p) then some p else candidate) (p + 1) n in
    if not (used (at m p)) then some p else rest

pub or_no_space : Option ℕ → Found
or_no_space none = no_space
or_no_space (some p) = miss p

pub found_or : Option ℕ → Found → Found
found_or none other = other
found_or (some p) other = hit p

pub lookup : Map → ℕ → Found
unfolding found_or or_no_space
lookup m h =
    let first = hash_to_hb m h in
    found_or (match_loop m (hash_to_keyfp m h) first bucket_size)
      (or_no_space (candidate_loop m none first bucket_size))

pub free_loop : Map → ℕ → ℕ → Option ℕ
free_loop m p zero = none
free_loop m p (suc n) =
    let rest = free_loop m (p + 1) n in
    if not (used (at m p)) || deleted (at m p) then some p else rest

-- `none` is ENOSPC. The bucket's index is kept in a u32.
pub next_free : Map → ℕ → Option ℕ
next_free m h = free_loop m (low32 (hash_to_hb m h)) bucket_size

unfoldable pub next_loop : Map → ℕ → ℕ → ℕ → Option ℕ
next_loop m to_match p zero = none
next_loop m to_match p (suc n) =
    let rest = next_loop m to_match (p + 1) n in
    if not (used (at m p)) || deleted (at m p)
    then rest
    else if not (deleted (at m p)) && to_match == entry_keyfp m p
    then some p
    else rest

-- the next slot with the same data; the loop runs over `he + 1 .. last`
unfoldable pub next : Map → Option ℕ → ℕ → Option ℕ
next m none h = none
next m (some he) h =
    next_loop m (hash_to_keyfp m h) (he + 1) (hash_to_hb m h + bucket_size - (he + 1))

pub pba_loop : Map → ℕ → ℕ → ℕ → Option ℕ
pba_loop m pba p zero = none
pba_loop m pba p (suc n) =
    let rest = pba_loop m pba (p + 1) n in
    if not (used (at m p)) then rest else if pba == (at m p).pba then some p else rest

-- the `lookup` for GC
pub lookup_pba : Map → ℕ → ℕ → Option ℕ
lookup_pba m h pba = pba_loop m pba (hash_to_hb m h) bucket_size

-- the body of `update` and of `update_inplace`, which leaves the offset
pub update : Map → ℕ → ℕ → ℕ → ℕ → Map
update m he h kv_size pba = write m he (record {
  bucket_offset = sub64 he (hash_to_hb m h) % 2 ^ hop_off_bits;
  key_tag = hash_to_keytag m h % 2 ^ keytag_bits;
  kv_size = min kv_size max_kv_size;
  pba = pba % 2 ^ pba_bits;
})

pub update_inplace : Map → ℕ → ℕ → ℕ → ℕ → Map
update_inplace m he h kv_size pba = write m he (record (at m he) {
  key_tag = hash_to_keytag m h % 2 ^ keytag_bits;
  kv_size = min kv_size max_kv_size;
  pba = pba % 2 ^ pba_bits;
})

-- the counters of live entries, one to each group of home slots
abbrev pub counter_of : Map → ℕ → ℕ
counter_of m h = hash_to_hb m h % max_lock_nr

pub count_up : Map → ℕ → Map
count_up m h =
    let i = counter_of m h in
    record m { used_entry_nr = set m.used_entry_nr i ((get_or m.used_entry_nr i 0 + 1) % 2 ^ 64) }

pub count_down : Map → ℕ → Map
count_down m h =
    let i = counter_of m h in
    record m { used_entry_nr = set m.used_entry_nr i (sub64 (get_or m.used_entry_nr i 0) 1) }

pub insert : Map → ℕ → ℕ → ℕ → ℕ → Map
insert m he h kv_size pba = count_up (update m he h kv_size pba) h

pub remove : Map → ℕ → ℕ → Map
remove m he pba =
    let m' = write m he (set_deleted (record (at m he) { pba = pba % 2 ^ pba_bits })) in
    count_down m' (entry_keyfp m' he)

pub purge : Map → ℕ → Map
purge m he = write m he (purge_entry (at m he))

pub entry_restored : Map → ℕ → Map
entry_restored m h = count_up m h
