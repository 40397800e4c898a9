-- ===== src/Recovery.antt =====
-- src/uDepot/lsa/udepot-directory-map.cc: what is read of the segments after a crash
-- (`prep_crash_recovery`) and at the end of `restore`. The segments are those of Salsa's iterator, as
-- their first grains.
pub mod Segments
pub mod Timestamps
pub mod BothWays
pub mod Headers
pub mod HeaderTrip
mod HeaderTests
mod Tests
use u_depot.Base.{
  ℕ, ◌+◌, max, Bool, true, false, Option, none, some, List, [], ◌∷◌, ◌==◌, leb, low32,
  if◌then◌else◌,
}
use u_depot.Store.{Rc, done, enodata, Device, got, fault}
use u_depot.Metadata.{
  Crc, SalsaMd, SalsaType, seg_md_of, read_seg_md, validate_seg_bytes, restore_seg_ts,
}
use u_depot.Growth.{Geometry, net_size}

-- A segment of grains that is given back to Salsa: scm->restore_grain_range.
pub record GrainRange : Type 0 where
  pub grain_start : ℕ
  pub grain_nr : ℕ

-- The metadata, the ranges that are given back, the last first, and how many they are.
pub record Prepared : Type 0 where
  pub md : SalsaMd
  pub ranges : List GrainRange
  pub restored_seg_nr : ℕ

abbrev pub md_grain : Geometry → ℕ → ℕ
md_grain g grain_start = grain_start + net_size g

-- a segment whose metadata is valid
abbrev pub prep_valid : Geometry → (ℕ → ℕ) → (grain_start : ℕ) → List ℕ → Prepared → Prepared
prep_valid g grain_to_seg_idx grain_start bytes p = record {
  md = restore_seg_ts (grain_to_seg_idx grain_start) (seg_md_of bytes).timestamp p.md;
  ranges = record { grain_start = grain_start; grain_nr = net_size g } ∷ p.ranges;
  restored_seg_nr = p.restored_seg_nr + 1;
}

unfoldable pub prep_segment :
    Crc → Geometry → (ℕ → ℕ) → SalsaType → Device → (grain_start : ℕ) → Prepared → Prepared
prep_segment crc32 g grain_to_seg_idx type dev grain_start p =
    elim (read_seg_md p.md dev (md_grain g grain_start)) [
      | fault rc ↦ p
      | got bytes ↦
          if validate_seg_bytes crc32 p.md bytes type
          then prep_valid g grain_to_seg_idx grain_start bytes p
          else p
    ]

unfoldable pub prep_loop :
    Crc → Geometry → (ℕ → ℕ) → SalsaType → Device → List ℕ → Prepared → Prepared
prep_loop crc32 g grain_to_seg_idx type dev [] p = p
prep_loop crc32 g grain_to_seg_idx type dev (grain_start ∷ segs) p =
    prep_loop crc32 g grain_to_seg_idx type dev segs
      (prep_segment crc32 g grain_to_seg_idx type dev grain_start p)

unfoldable pub prep_crash_recovery :
    Crc → Geometry → (ℕ → ℕ) → SalsaType → Device → List ℕ → SalsaMd → Rc × Prepared
prep_crash_recovery crc32 g grain_to_seg_idx type dev segs md =
    let p : Prepared =
      prep_loop crc32 g grain_to_seg_idx type dev segs
        (record { md = md; ranges = []; restored_seg_nr = 0 }) in
    (if p.restored_seg_nr == 0 then enodata else done, p)

-- The end of `restore`: the segments' timestamps, how many they are, and the largest.
pub record SegsRestored : Type 0 where
  pub md : SalsaMd
  pub seg_valid_nr : ℕ
  pub max_seg_alloc_nr : ℕ

-- One round of the loop. The count is a u32; `none` is the assertion on the timestamp.
unfoldable pub restore_segment :
    Crc
    → Geometry
    → (ℕ → ℕ)
    → SalsaType
    → Device
    → (grain_start : ℕ) → SegsRestored
    → Option SegsRestored
restore_segment crc32 g grain_to_seg_idx type dev grain_start r =
    elim (read_seg_md r.md dev (md_grain g grain_start)) [
      | fault rc ↦ some r
      | got bytes ↦ elim (validate_seg_bytes crc32 r.md bytes type) [
        | false ↦ some r
        | true ↦ elim (leb 1 (seg_md_of bytes).timestamp) [
          | false ↦ none
          | true ↦ some (record {
            md = restore_seg_ts (grain_to_seg_idx grain_start) (seg_md_of bytes).timestamp r.md;
            seg_valid_nr = low32 (r.seg_valid_nr + 1);
            max_seg_alloc_nr = max r.max_seg_alloc_nr (seg_md_of bytes).timestamp;
          })
        ]
      ]
    ]

unfoldable pub restore_seg_mds :
    Crc → Geometry → (ℕ → ℕ) → SalsaType → Device → List ℕ → SegsRestored → Option SegsRestored
restore_seg_mds crc32 g grain_to_seg_idx type dev [] r = some r
restore_seg_mds crc32 g grain_to_seg_idx type dev (grain_start ∷ segs) r =
    elim (restore_segment crc32 g grain_to_seg_idx type dev grain_start r) [
      | none ↦ none
      | some r' ↦ restore_seg_mds crc32 g grain_to_seg_idx type dev segs r'
    ]
