-- ===== src/Directory.antt =====
-- The directory of hash tables: how src/include/uDepot/lsa/udepot-directory-map.hh chooses the table
-- of a hash, and how `grow` of src/uDepot/lsa/udepot-directory-map.cc copies the tables' entries.
pub mod Choice
pub mod Copy
pub mod Access
pub mod Tests
use u_depot.Base.{
  ℕ, zero, suc, ◌+◌, ◌-◌, ◌*◌, ◌/◌, ◌%◌, ◌^◌, max, bit_and, not, Option, none, some, List, [], ◌∷◌,
  get_or, set, length, if◌then◌else◌,
}
use u_depot.HashEntry.{keytag_bits, used}
use u_depot.Map.{Map, Found, hit, miss, no_space, at, entry_keyfp, lookup, next_free, insert}
use u_depot.Map.Shift.{Shifted, room, full, unfinished, try_shift}
use u_depot.Map.Restore.{new_map}
use u_depot.Util.{bit_count}

pub record Directory : Type 0 where
  pub tables : List Map
  pub map_entry_nr_bits : ℕ

-- `__builtin_clzl` of a word: its leading zeros.
abbrev clzl : ℕ → ℕ
clzl n = 64 - bit_count 64 n 0

-- dir_idx_bits_
pub dir_idx_bits : List Map → ℕ
dir_idx_bits tables = 63 - clzl (length tables)

-- hash_to_dir_idx_, for tables of 2 ^ map_bits home slots
pub hash_to_dir_idx : ℕ → ℕ → ℕ → ℕ
hash_to_dir_idx map_bits h idx_bits =
    bit_and h (2 ^ (keytag_bits + map_bits) - 1) / 2 ^ (keytag_bits + map_bits - idx_bits)

pub hash_to_map : Directory → ℕ → Map
hash_to_map d h =
    get_or d.tables (hash_to_dir_idx d.map_entry_nr_bits h (dir_idx_bits d.tables)) new_map

-- the number of tables after a growth, a u32
unfoldable pub grown_size : List Map → ℕ
grown_size tables = max 1 (2 * length tables) % 2 ^ 32

-- One entry, with fingerprint `h`, goes into its table; `none` is EFAULT.
unfoldable pub copy_entry : Map → ℕ → ℕ → ℕ → Option Map
copy_entry trgt h kv_size pba = elim (lookup trgt h) [
  | no_space ↦ elim (try_shift trgt h) [
    | room trgt' q ↦ some (insert trgt' q h kv_size pba)
    | full _ ↦ none
    | unfinished ↦ none
  ]
  | miss q ↦ some (insert trgt q h kv_size pba)
  | hit q ↦ elim (next_free trgt h) [
    | some free ↦ some (insert trgt free h kv_size pba)
    | none ↦ some (insert trgt q h kv_size pba)
  ]
]

-- the loop over the `n` slots of an old table from `p` on
unfoldable pub copy_table : ℕ → Map → ℕ → ℕ → List Map → Option (List Map)
copy_table map_bits old p zero trgts = some trgts
copy_table map_bits old p (suc n) trgts =
    if not (used (at old p))
    then copy_table map_bits old (p + 1) n trgts
    else (let h = entry_keyfp old p in
        let idx = hash_to_dir_idx map_bits h (dir_idx_bits trgts) in
        elim (copy_entry (get_or trgts idx new_map) h (at old p).kv_size (at old p).pba) [
          | none ↦ none
          | some t ↦ copy_table map_bits old (p + 1) n (set trgts idx t)
        ])

-- step 3 of `grow`: the loop over the old tables
unfoldable pub copy_tables : ℕ → List Map → List Map → Option (List Map)
copy_tables map_bits [] trgts = some trgts
copy_tables map_bits (old ∷ rest) trgts = elim (copy_table map_bits old 0 old.entry_nr trgts) [
  | none ↦ none
  | some trgts' ↦ copy_tables map_bits rest trgts'
]
