-- ===== src/Growth.antt =====
-- src/uDepot/lsa/udepot-directory-map.cc: `grow`, which replaces the directory of tables by one of twice
-- the size. What Salsa, `mmap`, `mprotect` and `munmap` answer are arguments.
pub mod Regions
pub mod Tables
pub mod Outcome
pub mod Width
mod Tests
use u_depot.Base.{
  ℕ, zero, suc, ◌+◌, ◌*◌, ◌/◌, ◌%◌, ◌^◌, max, Bool, true, false, not, ◌&&◌, ◌||◌, Option, none,
  some, List, [], ◌∷◌, ◌++◌, length, map, if◌then◌else◌, sub64, ◌==◌,
}
use u_depot.HashEntry.{HashEntry}
use u_depot.Map.{Map, max_lock_nr}
use u_depot.Map.Restore.{Restored, ready, diverges, new_map, init}
use u_depot.Directory.{grown_size, copy_tables}
use u_depot.Store.{Rc, done, enomem, einval, eagain, out_of_fuel, errno, le_bytes}
use u_depot.Store.Write.{SalsaCall, invalidate_grains, release_grains}
use u_depot.Metadata.{Crc, SalsaMd, checksum32}

-- the protection of a mapped region, or that it is not mapped any more
pub data Prot : Type 0 where
  read_write : Prot
  read_only : Prot
  invalid : Prot
  unmapped : Prot

-- dirmap_hdr, without what fills it up to 512 bytes
pub record DirmapHdr : Type 0 where
  pub dir_size : ℕ
  pub idx : ℕ
  pub csum : ℕ
  pub ts : ℕ

-- sizeof(dirmap_hdr) + sizeof(dirmap_ftr)
abbrev pub md_ovrh : ℕ
md_ovrh = 1024

-- DirMapEntry, whose region is the header in it and its table, and the region's protection
pub record DirMapEntry : Type 0 where
  pub map : Map
  pub hdr : DirmapHdr
  pub size_b : ℕ
  pub grain_offset : ℕ
  pub huge : Bool
  pub prot : Prot

-- uDepotDirectoryMap, with its two locks and the calls of Salsa, the last first
pub record DirectoryMap : Type 0 where
  pub directory : List DirMapEntry
  pub map_entry_nr_bits : ℕ
  pub grow_nr : ℕ
  pub write_locked : Bool
  pub grow_locked : Bool
  pub calls : List SalsaCall

-- SalsaCtlr: the size of a segment and of the metadata at its end, and the size of a grain
pub record Geometry : Type 0 where
  pub seg_size : ℕ
  pub seg_md_size : ℕ
  pub grain_size : ℕ

abbrev pub net_size : Geometry → ℕ
net_size g = sub64 g.seg_size g.seg_md_size

abbrev pub mmap_size_b : Geometry → ℕ
mmap_size_b g = net_size g * g.grain_size % 2 ^ 64

abbrev pub full_seg_b : Geometry → ℕ
full_seg_b g = g.seg_size * g.grain_size % 2 ^ 64

abbrev pub mmap_size_grains : Geometry → ℕ
mmap_size_grains g = mmap_size_b g / g.grain_size

-- What is answered for a new table: an error of the allocation, the last answer, which is not EAGAIN,
-- or none and the grain; whether the region is mapped, on huge pages or not; and what it holds.
pub record Answer : Type 0 where
  pub alloc_error : Option Rc
  pub grain : ℕ
  pub maps_huge : Bool
  pub maps : Bool
  pub old_hdr : DirmapHdr
  pub words : List HashEntry
  pub now : ℕ

-- The answers of a growth; the i-th table's is that of `i`. `raced` is whether another growth
-- was there first.
pub record Answers : Type 0 where
  pub raced : Bool
  pub dir_space : Bool
  pub tables : ℕ → Answer
  pub read_only_error : ℕ → Option ℕ
  pub invalid_error : ℕ → Option ℕ
  pub unmap_error : ℕ → Option ℕ
  pub reset_error : ℕ → Option ℕ

-- An error or none, with what was done up to it.
pub record Stage : Type 0 where
  pub error : Option Rc
  pub entries : List DirMapEntry
  pub calls : List SalsaCall

-- Huge pages are tried for segments of whole huge pages.
unfoldable pub map_huge : Geometry → Answer → Bool
map_huge g a = full_seg_b g % 2 ^ 21 == 0 && a.maps_huge

unfoldable pub new_entry : Geometry → Answer → DirMapEntry
unfolding map_huge
new_entry g a = record {
  map = new_map;
  hdr = a.old_hdr;
  size_b = mmap_size_b g;
  grain_offset = a.grain;
  huge = map_huge g a;
  prot = read_write;
}

-- 1. the regions of `n` tables from the i-th on
unfoldable pub allocate_tables : Geometry → (ℕ → Answer) → (i n : ℕ) → List SalsaCall → Stage
unfolding map_huge
allocate_tables g answers i zero calls = record { error = none; entries = []; calls = calls }
allocate_tables g answers i (suc n) calls =
    let a = answers i in
    let released = release_grains a.grain (mmap_size_grains g) 0 false ∷ calls in
    let rest : Stage = allocate_tables g answers (suc i) n released in
    elim a.alloc_error [
      | some rc ↦ record { error = some rc; entries = []; calls = calls }
      | none ↦
          if map_huge g a || a.maps
          then record rest { entries = new_entry g a ∷ rest.entries }
          else record { error = some enomem; entries = []; calls = released }
    ]

-- 2. the empty tables in the regions
unfoldable pub init_tables :
    (lock_nr : ℕ) → (ℕ → Answer) → ℕ → List DirMapEntry → Option Rc × List DirMapEntry
init_tables lock_nr answers i [] = (none, [])
init_tables lock_nr answers i (dme ∷ rest) =
    let rest' = init_tables lock_nr answers (suc i) rest in
    elim (init dme.map lock_nr (sub64 dme.size_b md_ovrh) (some (answers i).words)) [
      | Restored.einval ↦ (some einval, dme ∷ rest)
      | diverges ↦ (some out_of_fuel, dme ∷ rest)
      | ready m ↦ (rest'.0, record dme { map = m } ∷ rest'.1)
    ]

-- `mprotect` of the regions, up to the first error
unfoldable pub protect_all :
    (ℕ → Option ℕ) → Prot → ℕ → List DirMapEntry → Option Rc × List DirMapEntry
protect_all errors prot i [] = (none, [])
protect_all errors prot i (dme ∷ rest) =
    let rest' = protect_all errors prot (suc i) rest in
    elim (errors i) [
      | some e ↦ (some (errno e), dme ∷ rest)
      | none ↦ (rest'.0, record dme { prot = prot } ∷ rest'.1)
    ]

unfoldable pub reopen : Prot → Prot
reopen unmapped = unmapped
reopen prot = read_write

-- `fail3`: a region keeps its protection where `mprotect` fails, as it does for one that is not
-- mapped any more, which is asserted against.
unfoldable pub reset_all : (ℕ → Option ℕ) → ℕ → List DirMapEntry → List DirMapEntry
reset_all errors i [] = []
reset_all errors i (dme ∷ rest) =
    let rest' = reset_all errors (suc i) rest in
    elim (errors i) [ some e ↦ dme ∷ rest' | none ↦ record dme { prot = reopen dme.prot } ∷ rest' ]

-- the grains of a region that is given up
unfoldable pub invalidate_table : Geometry → DirMapEntry → SalsaCall
invalidate_table g dme = invalidate_grains dme.grain_offset (dme.size_b / g.grain_size) false

-- Unmaps the old regions and invalidates their grains, up to the first error.
unfoldable pub unmap_tables :
    Geometry → (ℕ → Option ℕ) → ℕ → List DirMapEntry → List SalsaCall → Stage
unmap_tables g errors i [] calls = record { error = none; entries = []; calls = calls }
unmap_tables g errors i (dme ∷ rest) calls =
    let rest' : Stage = unmap_tables g errors (suc i) rest (invalidate_table g dme ∷ calls) in
    elim (errors i) [
      | some e ↦ record { error = some (errno e); entries = dme ∷ rest; calls = calls }
      | none ↦ record rest' { entries = record dme { prot = unmapped } ∷ rest'.entries }
    ]

-- `fail1`: the new regions
unfoldable pub drop_tables : Geometry → List DirMapEntry → List SalsaCall → List SalsaCall
drop_tables g [] calls = calls
drop_tables g (dme ∷ rest) calls = drop_tables g rest (invalidate_table g dme ∷ calls)

-- the tables of the copy, in their entries
unfoldable pub set_maps : List DirMapEntry → List Map → List DirMapEntry
set_maps [] maps = []
set_maps (dme ∷ rest) [] = dme ∷ rest
set_maps (dme ∷ rest) (m ∷ maps) = record dme { map = m } ∷ set_maps rest maps

abbrev pub maps_of : List DirMapEntry → List Map
maps_of = map (λ (dme : DirMapEntry). dme.map)

-- The header of the i-th table of `size`; the two sizes are u16.
unfoldable pub new_hdr : Crc → SalsaMd → (size i now : ℕ) → DirmapHdr
new_hdr crc32 md size i now =
    let dir_size = size % 2 ^ 16 in
    let idx = i % 2 ^ 16 in
    record {
      dir_size = dir_size;
      idx = idx;
      csum = checksum32 crc32 md now (le_bytes 2 dir_size ++ le_bytes 2 idx);
      ts = now;
    }

unfoldable pub write_headers :
    Crc → SalsaMd → (ℕ → Answer) → (size i : ℕ) → List DirMapEntry → List DirMapEntry
unfolding new_hdr
write_headers crc32 md answers size i [] = []
write_headers crc32 md answers size i (dme ∷ rest) =
    record dme { hdr = new_hdr crc32 md size i (answers i).now }
    ∷ write_headers crc32 md answers size (suc i) rest

-- `fail1`: without the write lock, the new directory is given up
unfoldable pub fail1 : Geometry → List DirMapEntry → Rc → DirectoryMap → Rc × DirectoryMap
fail1 g new_dir rc d = (rc, record d { grow_locked = false; calls = drop_tables g new_dir d.calls })

-- `fail3`: the old directory, as `old` with its protections, is made usable again
unfoldable pub fail3 :
    Geometry → Answers → (old new_dir : List DirMapEntry) → Rc → DirectoryMap → Rc × DirectoryMap
unfolding fail1
fail3 g ans old new_dir rc d =
    fail1 g new_dir rc
      (record d { directory = reset_all ans.reset_error 0 old; write_locked = false })

-- the new directory in place of the old one
unfoldable pub publish :
    Crc → SalsaMd → Answers → List DirMapEntry → DirectoryMap → Rc × DirectoryMap
publish crc32 md ans new_dir d = (
  done,
  record d {
    directory = write_headers crc32 md ans.tables (length new_dir) 0 new_dir;
    grow_nr = (d.grow_nr + 1) % 2 ^ 32;
    write_locked = false;
    grow_locked = false;
  },
)

-- Behind the copy, the old regions are made invalid and unmapped.
unfoldable pub retire :
    Crc
    → SalsaMd
    → Geometry
    → Answers
    → (old new_dir : List DirMapEntry) → DirectoryMap
    → Rc × DirectoryMap
unfolding fail3 publish
retire crc32 md g ans old new_dir d =
    let (error, closed) = protect_all ans.invalid_error invalid 0 old in
    elim error [
      | some rc ↦ fail3 g ans closed new_dir rc d
      | none ↦
          let u : Stage = unmap_tables g ans.unmap_error 0 closed d.calls in
          let d' : DirectoryMap = record d { calls = u.calls } in
          elim u.error [
            | some rc ↦ fail3 g ans u.entries new_dir rc d'
            | none ↦ publish crc32 md ans new_dir d'
          ]
    ]

-- With the write lock: the old regions become read-only and are copied. An entry that cannot be
-- copied sets an `rc` of the inner block, so that the `rc` that is returned is still 0.
unfoldable pub replace_directory :
    Crc → SalsaMd → Geometry → Answers → List DirMapEntry → DirectoryMap → Rc × DirectoryMap
unfolding fail3 retire
replace_directory crc32 md g ans new_dir d =
    let (error, shut) = protect_all ans.read_only_error read_only 0 d.directory in
    elim error [
      | some rc ↦ fail3 g ans shut new_dir rc d
      | none ↦ elim (copy_tables d.map_entry_nr_bits (maps_of shut) (maps_of new_dir)) [
        | none ↦ fail3 g ans shut new_dir done d
        | some maps ↦ retire crc32 md g ans shut (set_maps new_dir maps) d
      ]
    ]

unfoldable pub build :
    Crc → SalsaMd → Geometry → Answers → (new_size : ℕ) → DirectoryMap → Rc × DirectoryMap
unfolding fail1 replace_directory
build crc32 md g ans new_size d =
    let s : Stage = allocate_tables g ans.tables 0 new_size d.calls in
    let d' : DirectoryMap = record d { calls = s.calls } in
    elim s.error [
      | some rc ↦ fail1 g s.entries rc d'
      | none ↦
          let (error, new_dir) =
            init_tables (max 1 (max_lock_nr / new_size)) ans.tables 0 s.entries in
          elim error [
            | some rc ↦ fail1 g new_dir rc d'
            | none ↦ replace_directory crc32 md g ans new_dir (record d' { write_locked = true })
          ]
    ]

unfoldable pub grow : Crc → SalsaMd → Geometry → Answers → DirectoryMap → Rc × DirectoryMap
unfolding build
grow crc32 md g ans d =
    if ans.raced
    then (eagain, d)
    else if not ans.dir_space
    then (enomem, d)
    else build crc32 md g ans (grown_size (maps_of d.directory)) (record d { grow_locked = true })
