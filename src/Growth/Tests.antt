-- ===== src/Growth/Tests.antt =====
-- A growth of the empty directory.
use u_depot.Base.{◌-◌, ◌^◌, ◌≡◌, ◌⊎◌, refl, true, false, none, [], length, replicate, arith}
use u_depot.HashEntry.{erased_entry}
use u_depot.Map.Restore.{init, erase_table, restore, restore_entries, lock_loop}
use u_depot.Util.{align_down, udiv_round_up, round_down_pow2, bit_count}
use u_depot.Directory.{grown_size, dir_idx_bits, copy_tables}
use u_depot.Metadata.Tests.{crc32, md}
use u_depot.Growth.{
  DirmapHdr, DirectoryMap, Geometry, Answer, Answers, maps_of, grow, replace_directory, build,
  retire, publish, protect_all, unmap_tables, set_maps, write_headers, allocate_tables, map_huge,
  new_entry, init_tables,
}
use u_depot.Growth.Outcome.{Kept, Replaced, grow-Outcome}
use u_depot.Growth.Width.{Grown, start, step, new_directory_map, dir_idx_bits-Grown}

abbrev geometry : Geometry
geometry = record { seg_size = 24; seg_md_size = 1; grain_size = 64 }

abbrev blank : DirmapHdr
blank = record { dir_size = 0; idx = 0; csum = 0; ts = 0 }

abbrev answer : Answer
answer = record {
  alloc_error = none;
  grain = 48;
  maps_huge = false;
  maps = true;
  old_hdr = blank;
  words = replicate 48 erased_entry;
  now = 3;
}

abbrev answers : Answers
answers = record {
  raced = false;
  dir_space = true;
  tables = λ i. answer;
  read_only_error = λ i. none;
  invalid_error = λ i. none;
  unmap_error = λ i. none;
  reset_error = λ i. none;
}

grow-Outcome_example :
    Kept [] 0 (grow crc32 md geometry answers new_directory_map)
    ⊎ Replaced (grown_size []) 0 (grow crc32 md geometry answers new_directory_map)
grow-Outcome_example =
    grow-Outcome crc32 md geometry answers (λ j. refl) (λ j. refl) new_directory_map tt refl refl

abbrev once : DirectoryMap
once = (grow crc32 md geometry answers new_directory_map).1

once-Grown : Grown crc32 md once
once-Grown = step geometry answers start (λ j. refl) (λ j. refl) (omega arith)

once-counted : once.grow_nr ≡ 1
unfolding grow build replace_directory retire publish protect_all unmap_tables set_maps
    write_headers allocate_tables map_huge new_entry init_tables grown_size copy_tables init
    erase_table restore restore_entries lock_loop align_down udiv_round_up round_down_pow2 bit_count
once-counted = refl

dir_idx_bits-Grown_example :
    (length once.directory ≡ 2 ^ (once.grow_nr - 1))
    × (dir_idx_bits (maps_of once.directory) ≡ once.grow_nr - 1)
dir_idx_bits-Grown_example = dir_idx_bits-Grown once-Grown (omega (arith, once-counted))
