-- ===== src/Directory/Tests.antt =====
-- Small directories of udepot-directory-map.hh, with what the theorems say of them.
use u_depot.Base.{◌≢◌, ◌<◌, ◌≡◌, List, [], ◌∷◌, some, length, arith}
use u_depot.Map.{miss, Map, at, hit}
use u_depot.Map.Tests.{
  small, one, one-IsSized, one-IsTagged, lookup-one, lookup_pba-one, one-kv_size, small-IsSized,
  lookup-small,
}
use u_depot.Util.{bit_count}
use u_depot.Map.Keys.{IsSized, IsTagged}
use u_depot.Directory.{Directory, hash_to_map, dir_idx_bits, hash_to_dir_idx}
use u_depot.Directory.Access.{table_idx, lookup_in, lookup_pba_in}

abbrev three_tables : List Map
three_tables = small ∷ small ∷ small ∷ []

abbrev pub three : Directory
three = record { tables = three_tables; map_entry_nr_bits = 1 }

pub three-index : table_idx three 5 < length three.tables
unfolding dir_idx_bits hash_to_dir_idx bit_count
three-index = omega arith

three-apart : table_idx three 5 ≢ table_idx three 261
unfolding dir_idx_bits hash_to_dir_idx bit_count
three-apart = λ e. absurd (omega (arith, e))

pub three-IsSized : IsSized (hash_to_map three 5)
unfolding hash_to_map dir_idx_bits hash_to_dir_idx bit_count
three-IsSized = small-IsSized

pub lookup_in-three : lookup_in three 5 ≡ miss 1
unfolding hash_to_map dir_idx_bits hash_to_dir_idx bit_count
lookup_in-three = lookup-small

-- tables with an entry at the address 100
abbrev pub stocked : Directory
stocked = record { tables = one ∷ one ∷ one ∷ []; map_entry_nr_bits = 1 }

pub stocked-index : table_idx stocked 5 < length stocked.tables
unfolding dir_idx_bits hash_to_dir_idx bit_count
stocked-index = omega arith

pub stocked-IsSized : IsSized (hash_to_map stocked 5)
unfolding hash_to_map dir_idx_bits hash_to_dir_idx bit_count
stocked-IsSized = one-IsSized

pub stocked-IsTagged : IsTagged (hash_to_map stocked 5) 5 1
unfolding hash_to_map dir_idx_bits hash_to_dir_idx bit_count
stocked-IsTagged = one-IsTagged

pub lookup_in-stocked : lookup_in stocked 5 ≡ hit 1
unfolding hash_to_map dir_idx_bits hash_to_dir_idx bit_count
lookup_in-stocked = lookup-one

pub stocked-kv_size : (at (hash_to_map stocked 5) 1).kv_size ≡ 3
unfolding hash_to_map dir_idx_bits hash_to_dir_idx bit_count
stocked-kv_size = one-kv_size

pub lookup_pba_in-stocked : lookup_pba_in stocked 5 100 ≡ some 1
unfolding hash_to_map dir_idx_bits hash_to_dir_idx bit_count
lookup_pba_in-stocked = lookup_pba-one
