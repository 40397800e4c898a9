-- ===== src/Metadata/Disjoint.antt =====
-- src/uDepot/lsa/metadata.cc: the metadata of the device lies behind the segments, so that the two
-- kinds of metadata do not overwrite each other.
use native.Mathlib.Nat.{div-add-mod'}
use u_depot.Base.{
  ℕ, ◌+◌, ◌*◌, ◌%◌, ◌^◌, ◌<◌, ◌≤◌, ◌≡◌, ◌⊎◌, refl, Bool, true, false, inl, inr, ◌||◌, ltb, ltb→lt,
  ◌==◌, if◌then◌else◌, length, Bool-cases, Option-cases, arith,
}
use u_depot.Util.{uceil_up, align_up, align_down}
use u_depot.Util.Rounding.{udiv_round_up_lem}
use u_depot.Store.{done, einval, Device}
use u_depot.Store.Elsewhere.{length-pwrite_full, pread_full-elsewhere}
use u_depot.Metadata.{
  Crc, SalsaMd, SalsaType, dev_md_sizeb, pad_b, dev_md_grain_offset, check_dev_size, seg_iovec,
  persist_seg_md, validate_dev_md, read_seg_md,
}
use u_depot.Metadata.SegTrip.{seg_extent, seg_place, length-written}
use u_depot.Metadata.DevTrip.{dev_extent, dev_place}

-- The sizes of grains and devices that the metadata is used with.
pub record IsUsual (m : SalsaMd) (size : ℕ) : Type 0 where
  pub grain_pos : 0 < m.grain_size
  pub grain_small : m.grain_size < 2 ^ 31
  pub size_small : size < 2 ^ 64

-- A struct with its padding takes whole grains.
pub padded :
    (sizeb g : ℕ) → sizeb < 2 ^ 31 → 0 < g → g < 2 ^ 31 → sizeb + pad_b g sizeb ≡ align_up sizeb g
unfolding pad_b align_up uceil_up
padded sizeb g few pos small =
    let r = udiv_round_up_lem sizeb g pos (omega arith) in omega (arith, r.0, r.1)

pub align_down-le : (size unit : ℕ) → align_down size unit ≤ size
unfolding align_down
align_down-le size unit = elim (Bool-cases (unit == 0)) [
  | inl zero_unit ↦ rw zero_unit (omega arith)
  | inr some_unit ↦ rw some_unit (omega (arith, div-add-mod' size unit))
]

-- The offset is 0, or the whole grains of the device without those of the struct.
offset-cases :
    (m : SalsaMd) (size : ℕ)
    → IsUsual m size
    → (dev_md_grain_offset m size ≡ 0)
      ⊎ (dev_md_grain_offset m size + align_up dev_md_sizeb m.grain_size
          ≡ align_down size m.grain_size)
unfolding dev_md_grain_offset
offset-cases m size u =
    let whole = align_up dev_md_sizeb m.grain_size in
    let room = align_down size m.grain_size in
    elim (Bool-cases (ltb whole room)) [
      | inl fits ↦
          let less = ltb→lt whole room fits in
          let bound = align_down-le size m.grain_size in
          inr (rw fits (omega (arith, less, bound, u.size_small)))
      | inr none_left ↦ inl (rw none_left refl)
    ]

accepted : (a b : Bool) → (if a || b then einval else done) ≡ done → (a ≡ false) × (b ≡ false)
accepted true b e = cc
accepted false true e = cc
accepted false false e = (refl, refl)

-- C
pub check_dev_size_lem :
    (m : SalsaMd) (size segment_size : ℕ)
    → IsUsual m size
    → check_dev_size m size segment_size ≡ done
    → (align_down size (segment_size * m.grain_size % 2 ^ 64) ≤ dev_md_grain_offset m size)
      × (dev_md_grain_offset m size + dev_extent m ≤ size)
unfolding check_dev_size
check_dev_size_lem m size segment_size u ok =
    let offset = dev_md_grain_offset m size in
    let logical = align_down size (segment_size * m.grain_size % 2 ^ 64) in
    let (some_offset, behind) = accepted (offset == 0) (ltb offset logical) ok in
    let p = padded dev_md_sizeb m.grain_size (omega arith) u.grain_pos u.grain_small in
    let bound = align_down-le size m.grain_size in
    elim (offset-cases m size u) [
      | inl zero_offset ↦ absurd (ground (arith, zero_offset, some_offset))
      | inr e ↦ (ground (arith, behind), omega (arith, e, p, bound))
    ]

-- On a device that `check_dev_size` accepts, with grains of less than 2 ^ 31 bytes and a 64-bit
-- size, persisting the metadata of a segment that ends within the whole segments of the device
-- changes nothing for `validate_dev_md`, with an error of the device and without.
pub validate_dev_md-persist_seg_md :
    (crc32 : Crc) (stack : ℕ → ℕ) (m : SalsaMd) (dev : Device) (segment_size grain ts : ℕ)
    (type : SalsaType)
    → IsUsual m (length dev.bytes)
    → check_dev_size m (length dev.bytes) segment_size ≡ done
    → seg_place m grain + seg_extent m
      ≤ align_down (length dev.bytes) (segment_size * m.grain_size % 2 ^ 64)
    → validate_dev_md crc32 m (persist_seg_md crc32 stack grain ts type m dev).device
      ≡ validate_dev_md crc32 m dev
unfolding persist_seg_md validate_dev_md
validate_dev_md-persist_seg_md crc32 stack m dev segment_size grain ts type u ok inside =
    let (before, fits) = check_dev_size_lem m (length dev.bytes) segment_size u ok in
    let written = seg_iovec crc32 stack ts type m in
    let n = length-written crc32 stack m dev grain ts type in
    let on_device : seg_place m grain + length written ≤ length dev.bytes =
      omega (arith, n, inside, before, fits) in
    elim (Option-cases (dev.write_fault (seg_place m grain) (length written))) [
      | inr (rc, bad) ↦ rw (persist_seg_md, bad) refl
      | inl well ↦
          rw
            (
              persist_seg_md,
              well,
              validate_dev_md,
              length-pwrite_full dev (seg_place m grain) written on_device,
              pread_full-elsewhere dev (seg_place m grain) written (dev_place m dev) (dev_extent m)
                  on_device (inr (omega (arith, n, inside, before))),
            )
            refl
    ]

-- C
pub read_seg_md-persist_seg_md_other :
    (crc32 : Crc) (stack : ℕ → ℕ) (m : SalsaMd) (dev : Device) (grain other ts : ℕ)
    (type : SalsaType)
    → seg_place m grain + seg_extent m ≤ length dev.bytes
    → (seg_place m other + seg_extent m ≤ seg_place m grain)
      ⊎ (seg_place m grain + seg_extent m ≤ seg_place m other)
    → read_seg_md m (persist_seg_md crc32 stack grain ts type m dev).device other
      ≡ read_seg_md m dev other
unfolding persist_seg_md read_seg_md
read_seg_md-persist_seg_md_other crc32 stack m dev grain other ts type on_device apart =
    let written = seg_iovec crc32 stack ts type m in
    let n = length-written crc32 stack m dev grain ts type in
    let fits : seg_place m grain + length written ≤ length dev.bytes =
      omega (arith, n, on_device) in
    let apart' : (seg_place m other + seg_extent m ≤ seg_place m grain)
        ⊎ (seg_place m grain + length written ≤ seg_place m other) =
      ground (arith, n, apart) in
    elim (Option-cases (dev.write_fault (seg_place m grain) (length written))) [
      | inr (rc, bad) ↦ rw (persist_seg_md, bad) refl
      | inl well ↦
          rw
            (
              persist_seg_md,
              well,
              read_seg_md,
              pread_full-elsewhere dev (seg_place m grain) written (seg_place m other)
                  (seg_extent m) fits apart',
            )
            refl
    ]
