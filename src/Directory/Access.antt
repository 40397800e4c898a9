-- ===== src/Directory/Access.antt =====
-- src/include/uDepot/lsa/udepot-directory-map.hh: the operations of the directory, each on the table of
-- its hash.
use u_depot.Base.{
  ℕ, ◌-◌, ◌<◌, ◌≡◌, ◌≢◌, ap, ◌∙◌, Option, some, none, get_or, set, length, length-set,
  get_or-set_self, get_or-set_ne,
}
use u_depot.Util.{bit_count}
use u_depot.HashEntry.{unused_pba_entry}
use u_depot.Map.{
  Map, Found, hit, miss, lookup, next_free, next, lookup_pba, insert, update, update_inplace,
  remove, purge,
}
use u_depot.Map.Shift.{Shifted, room, full, unfinished, try_shift}
use u_depot.Map.Restore.{new_map}
use u_depot.Map.Keys.{IsSized}
use u_depot.Map.Insert.{lookup-insert}
use u_depot.Directory.{Directory, dir_idx_bits, hash_to_dir_idx, hash_to_map}

abbrev pub table_idx : Directory → ℕ → ℕ
table_idx d h = hash_to_dir_idx d.map_entry_nr_bits h (dir_idx_bits d.tables)

-- the table of a hash, changed in its place
abbrev pub with_map : Directory → ℕ → Map → Directory
with_map d h m = record d { tables = set d.tables (table_idx d h) m }

abbrev pub lookup_in : Directory → ℕ → Found
lookup_in d h = lookup (hash_to_map d h) h

abbrev pub next_free_in : Directory → ℕ → Option ℕ
next_free_in d h = next_free (hash_to_map d h) h

abbrev pub next_in : Directory → Option ℕ → ℕ → Option ℕ
next_in d he h = next (hash_to_map d h) he h

abbrev pub lookup_pba_in : Directory → ℕ → ℕ → Option ℕ
lookup_pba_in d h pba = lookup_pba (hash_to_map d h) h pba

abbrev pub insert_in : Directory → ℕ → ℕ → ℕ → ℕ → Directory
insert_in d h he kv_size pba = with_map d h (insert (hash_to_map d h) he h kv_size pba)

abbrev pub update_in : Directory → ℕ → ℕ → ℕ → ℕ → Directory
update_in d h he kv_size pba = with_map d h (update (hash_to_map d h) he h kv_size pba)

abbrev pub update_inplace_in : Directory → ℕ → ℕ → ℕ → ℕ → Directory
update_inplace_in d h he kv_size pba =
    with_map d h (update_inplace (hash_to_map d h) he h kv_size pba)

abbrev pub remove_in : Directory → ℕ → ℕ → ℕ → Directory
remove_in d h he pba = with_map d h (remove (hash_to_map d h) he pba)

abbrev pub purge_in : Directory → ℕ → ℕ → Directory
purge_in d h he = with_map d h (purge (hash_to_map d h) he)

-- the slot, when space was made, and the directory
abbrev pub shifted_in : Directory → ℕ → Shifted → Option ℕ × Directory
shifted_in d h (room m q) = (some q, with_map d h m)
shifted_in d h (full m) = (none, with_map d h m)
shifted_in d h unfinished = (none, d)

abbrev pub try_shift_in : Directory → ℕ → Option ℕ × Directory
try_shift_in d h = shifted_in d h (try_shift (hash_to_map d h) h)

same_idx :
    (d : Directory) (h other : ℕ) (m : Map) → table_idx (with_map d h m) other ≡ table_idx d other
unfolding dir_idx_bits
same_idx d h other m =
    ap (λ n. hash_to_dir_idx d.map_entry_nr_bits other (63 - (64 - bit_count 64 n 0)))
      (length-set d.tables (table_idx d h) m)

pub hash_to_map-with_map :
    (d : Directory) (h : ℕ) (m : Map)
    → table_idx d h < length d.tables
    → hash_to_map (with_map d h m) h ≡ m
unfolding hash_to_map
hash_to_map-with_map d h m lt =
    ap (λ i. get_or (set d.tables (table_idx d h) m) i new_map) (same_idx d h h m)
    ∙ get_or-set_self d.tables (table_idx d h) m new_map lt

hash_to_map-with_map_ne :
    (d : Directory) (h other : ℕ) (m : Map)
    → table_idx d h ≢ table_idx d other
    → hash_to_map (with_map d h m) other ≡ hash_to_map d other
unfolding hash_to_map
hash_to_map-with_map_ne d h other m ne =
    ap (λ i. get_or (set d.tables (table_idx d h) m) i new_map) (same_idx d h other m)
    ∙ get_or-set_ne d.tables (table_idx d h) (table_idx d other) m new_map ne

-- When the index of a hash lies in the directory and its table has a power of two of home
-- slots, after `lookup` of the directory has reported slot `q` for a new entry and the entry,
-- of a positive size and an address that a slot in use can hold, is inserted there, `lookup` of
-- the directory finds it at `q`.
pub lookup_in-insert_in :
    (d : Directory) (h q kv_size pba : ℕ)
    → table_idx d h < length d.tables
    → IsSized (hash_to_map d h)
    → lookup_in d h ≡ miss q
    → 0 < kv_size
    → pba < unused_pba_entry
    → lookup_in (insert_in d h q kv_size pba) h ≡ hit q
lookup_in-insert_in d h q kv_size pba lt s found some_size real =
    let m : Map = hash_to_map d h in
    ap (λ k. lookup k h) (hash_to_map-with_map d h (insert m q h kv_size pba) lt)
    ∙ (lookup-insert m h q kv_size pba s found some_size real).0

-- An insertion in a directory changes no lookup of a hash of another table.
pub lookup_in-insert_in_other :
    (d : Directory) (h q kv_size pba other : ℕ)
    → table_idx d h ≢ table_idx d other
    → lookup_in (insert_in d h q kv_size pba) other ≡ lookup_in d other
lookup_in-insert_in_other d h q kv_size pba other ne =
    ap (λ k. lookup k other)
      (hash_to_map-with_map_ne d h other (insert (hash_to_map d h) q h kv_size pba) ne)
