-- ===== src/Recovery/Headers.antt =====
-- src/uDepot/lsa/udepot-directory-map.cc: the headers and footers of the directory's tables: what `grow`,
-- `shutdown` and `invalidate_ftr` leave in a region, once it is written back, and what `restore` makes of
-- them.
use u_depot.Base.{
  ℕ, ◌+◌, ◌-◌, ◌*◌, ◌/◌, ◌%◌, ◌^◌, max, true, false, not, ◌||◌, Option, none, some, List, [], ◌∷◌,
  ◌++◌, length, replicate, set, ◌==◌, if◌then◌else◌, sub64,
}
use u_depot.Map.{max_lock_nr}
use u_depot.Map.Restore.{Restored, ready, diverges, new_map, restore}
use u_depot.Store.{
  Rc, done, enodata, enomem, einval, out_of_fuel, Device, got, fault, pread_full, pwrite_full,
  le_bytes,
}
use u_depot.Store.Relocate.{is_done}
use u_depot.Metadata.{Crc, SalsaMd, directory, validate_seg_md, field, checksum32}
use u_depot.Growth.{
  DirmapHdr, DirMapEntry, Geometry, Answer, unmapped, net_size, mmap_size_b, md_ovrh, map_huge,
  new_entry,
}
use u_depot.Recovery.{md_grain}

pub record DirmapFtr : Type 0 where
  pub dir_size : ℕ
  pub idx : ℕ
  pub csum : ℕ
  pub ts : ℕ
  pub used_bytes_kv : ℕ
  pub tot_bytes_kv : ℕ

-- sizeof of either
abbrev pub block_size : ℕ
block_size = 512

abbrev pub hdr_bytes : DirmapHdr → List ℕ
hdr_bytes h = le_bytes 2 h.dir_size ++ (le_bytes 2 h.idx ++ (le_bytes 4 h.csum ++ le_bytes 8 h.ts))

abbrev pub ftr_bytes : DirmapFtr → List ℕ
ftr_bytes f =
    le_bytes 2 f.dir_size
    ++ (le_bytes 2 f.idx
        ++ (le_bytes 4 f.csum
            ++ (le_bytes 8 f.ts ++ (le_bytes 8 f.used_bytes_kv ++ le_bytes 8 f.tot_bytes_kv))))

abbrev pub hdr_of : List ℕ → DirmapHdr
hdr_of bytes = record {
  dir_size = field 0 2 bytes;
  idx = field 2 2 bytes;
  csum = field 4 4 bytes;
  ts = field 8 8 bytes;
}

abbrev pub ftr_of : List ℕ → DirmapFtr
ftr_of bytes = record {
  dir_size = field 0 2 bytes;
  idx = field 2 2 bytes;
  csum = field 4 4 bytes;
  ts = field 8 8 bytes;
  used_bytes_kv = field 16 8 bytes;
  tot_bytes_kv = field 24 8 bytes;
}

-- The footer that `shutdown` gives the i-th of `size` tables: the last one has the counts.
unfoldable pub new_ftr : Crc → SalsaMd → (size i now used tot : ℕ) → DirmapFtr
new_ftr crc32 md size i now used tot =
    let dir_size = size % 2 ^ 16 in
    let idx = i % 2 ^ 16 in
    let is_last = i == sub64 size 1 in
    record {
      dir_size = dir_size;
      idx = idx;
      csum = checksum32 crc32 md now (le_bytes 2 dir_size ++ le_bytes 2 idx);
      ts = now;
      used_bytes_kv = if is_last then used else 0;
      tot_bytes_kv = if is_last then tot else 0;
    }

-- where the blocks of the region at a grain lie
abbrev pub hdr_place : Geometry → ℕ → ℕ
hdr_place g grain_start = grain_start * g.grain_size % 2 ^ 64

abbrev pub ftr_place : Geometry → ℕ → ℕ
ftr_place g grain_start = sub64 (md_grain g grain_start * g.grain_size % 2 ^ 64) block_size

unfoldable pub write_hdr : Geometry → (grain_start : ℕ) → DirmapHdr → Device → Device
write_hdr g grain_start h dev = pwrite_full dev (hdr_place g grain_start) (hdr_bytes h)

unfoldable pub write_ftr : Geometry → (grain_start : ℕ) → DirmapFtr → Device → Device
write_ftr g grain_start f dev = pwrite_full dev (ftr_place g grain_start) (ftr_bytes f)

-- One region in the loop of `invalidate_ftr`: the memset of the footer, and then `msync`, whose
-- error, if it makes one, is the result. The mapping is shared, so that the footer is gone for who
-- reads the device then, with the error and without.
unfoldable pub invalidate_ftr :
    (msync : Option Rc) → Geometry → (grain_start : ℕ) → Device → Rc × Device
invalidate_ftr msync g grain_start dev =
    let dev' = pwrite_full dev (ftr_place g grain_start) (replicate block_size 0) in
    elim msync [ none ↦ (done, dev') | some rc ↦ (rc, dev') ]

-- The loop over the regions, `none` for one that is not mapped: it stops at the first error.
unfoldable pub invalidate_ftrs :
    (msync : ℕ → Option Rc) → Geometry → List (Option ℕ) → Device → Rc × Device
invalidate_ftrs msync g [] dev = (done, dev)
invalidate_ftrs msync g (none ∷ regions) dev = invalidate_ftrs msync g regions dev
invalidate_ftrs msync g (some grain_start ∷ regions) dev =
    let (rc, dev') = invalidate_ftr (msync grain_start) g grain_start dev in
    elim (is_done rc) [ true ↦ invalidate_ftrs msync g regions dev' | false ↦ (rc, dev') ]

-- A segment of the directory that is found.
pub record RestoreMd : Type 0 where
  pub grain_start : ℕ
  pub hdr : DirmapHdr
  pub ftr : DirmapFtr
  pub valid_nr : ℕ

pub data Scanned : Type 0 where
  found : RestoreMd → Scanned
  skipped : Scanned
  io_error : Scanned

unfoldable pub ids_csum : Crc → SalsaMd → (ts dir_size idx : ℕ) → ℕ
ids_csum crc32 md ts dir_size idx = checksum32 crc32 md ts (le_bytes 2 dir_size ++ le_bytes 2 idx)

unfoldable pub judge_blocks :
    Crc → SalsaMd → Geometry → (grain_start : ℕ) → DirmapHdr → DirmapFtr → Scanned
unfolding ids_csum
judge_blocks crc32 md g grain_start hdr ftr =
    if not (ids_csum crc32 md hdr.ts hdr.dir_size hdr.idx == hdr.csum)
      || not (ids_csum crc32 md ftr.ts ftr.dir_size ftr.idx == ftr.csum)
    then skipped
    else found (record { grain_start = grain_start; hdr = hdr; ftr = ftr; valid_nr = net_size g })

unfoldable pub scan_segment : Crc → SalsaMd → Geometry → Device → (grain_start : ℕ) → Scanned
unfolding judge_blocks
scan_segment crc32 md g dev grain_start =
    if not (validate_seg_md crc32 md dev (md_grain g grain_start) directory)
    then skipped
    else elim (pread_full dev (hdr_place g grain_start) block_size) [
      | fault rc ↦ io_error
      | got hdr ↦ elim (pread_full dev (ftr_place g grain_start) block_size) [
        | fault rc ↦ io_error
        | got ftr ↦ judge_blocks crc32 md g grain_start (hdr_of hdr) (ftr_of ftr)
      ]
    ]

-- The segments in their order; `none` is EIO.
unfoldable pub scan_loop : Crc → SalsaMd → Geometry → Device → List ℕ → Option (List RestoreMd)
scan_loop crc32 md g dev [] = some []
scan_loop crc32 md g dev (s ∷ segs) = elim (scan_segment crc32 md g dev s) [
  | io_error ↦ none
  | skipped ↦ scan_loop crc32 md g dev segs
  | found r ↦ elim (scan_loop crc32 md g dev segs) [ none ↦ none | some rs ↦ some (r ∷ rs) ]
]

-- the key of the std::map, a u32
abbrev pub size_key : RestoreMd → ℕ
size_key r = (r.hdr.dir_size + (2 ^ 32 - 1)) % 2 ^ 32

abbrev pub max_key : List RestoreMd → ℕ
max_key [] = 0
max_key (r ∷ rs) = max (size_key r) (max_key rs)

abbrev pub with_key : ℕ → List RestoreMd → List RestoreMd
with_key k [] = []
with_key k (r ∷ rs) = if size_key r == k then r ∷ with_key k rs else with_key k rs

-- the list at `restored.rbegin()`: the tables of the largest directory
unfoldable pub last_group : List RestoreMd → List RestoreMd
last_group rs = with_key (max_key rs) rs

-- The test of the first table: ENODATA when the directory is not complete.
unfoldable pub completeness : List RestoreMd → Option Rc
completeness [] = some enodata
completeness (r ∷ rs) = if r.hdr.dir_size == length (r ∷ rs) then none else some enodata

abbrev pub blank_entry : DirMapEntry
blank_entry = record {
  map = new_map;
  hdr = record { dir_size = 0; idx = 0; csum = 0; ts = 0 };
  size_b = 0;
  grain_offset = 0;
  huge = false;
  prot = unmapped;
}

-- The tables of the group in their places, from an error or none; an index behind the new
-- directory, which nothing excludes, is not written here.
unfoldable pub restore_tables :
    Geometry
    → (ℕ → Answer)
    → (lock_nr : ℕ) → Option Rc
    → List DirMapEntry
    → List RestoreMd
    → Option Rc × List DirMapEntry
restore_tables g answers lock_nr rc new_dir [] = (rc, new_dir)
restore_tables g answers lock_nr rc new_dir (r ∷ rs) =
    let a : Answer = answers r.grain_start in
    let entry : DirMapEntry = record (new_entry g a) {
      grain_offset = r.grain_start;
      hdr = r.hdr;
    } in
    if map_huge g a || a.maps
    then elim (restore new_map lock_nr (sub64 (mmap_size_b g) md_ovrh) (some a.words)) [
      | Restored.einval ↦ (some einval, new_dir)
      | diverges ↦ (some out_of_fuel, new_dir)
      | ready m ↦
          restore_tables g answers lock_nr none (set new_dir r.hdr.idx (record entry { map = m }))
            rs
    ]
    else (some enomem, new_dir)

-- The part of `restore` up to the entries of the tables.
unfoldable pub restore_directory :
    Geometry → (ℕ → Answer) → List RestoreMd → Option Rc × List DirMapEntry
restore_directory g answers restored =
    let group = last_group restored in
    let new_size = length group in
    if new_size == 0
    then (some enodata, [])
    else restore_tables g answers (max 1 (max_lock_nr / new_size)) (completeness group)
        (replicate new_size blank_entry) group
