-- ===== src/Recovery/Segments.antt =====
-- src/uDepot/lsa/udepot-directory-map.cc: the segments that are found after a crash.
use u_depot.Base.{
  ℕ, ◌≡◌, refl, sym, ap, subst, ◌∙◌, true, false, Bool-cases, List, [], ◌∷◌, ◌==◌, length,
  if◌then◌else◌, arith, ◌⊎◌, inl, inr,
}
use u_depot.Store.{Rc, done, enodata, Device, ReadResult, got, fault}
use u_depot.Metadata.{
  Crc, SalsaMd, SalsaType, seg_md_of, read_seg_md, validate_seg_bytes, validate_seg_md,
  restore_seg_ts,
}
use u_depot.Growth.{Geometry, net_size}
use u_depot.Recovery.{
  GrainRange, Prepared, md_grain, prep_valid, prep_segment, prep_loop, prep_crash_recovery,
}

-- The specification: the ranges of the segments whose metadata is valid, the last first.
abbrev pub valid_ranges :
    Crc → Geometry → SalsaType → SalsaMd → Device → List ℕ → List GrainRange → List GrainRange
valid_ranges crc32 g type md dev [] ranges = ranges
valid_ranges crc32 g type md dev (grain_start ∷ segs) ranges =
    valid_ranges crc32 g type md dev segs (
      if validate_seg_md crc32 md dev (md_grain g grain_start) type
      then record { grain_start = grain_start; grain_nr = net_size g } ∷ ranges
      else ranges)

pub ReadResult-cases :
    (r : ReadResult) → ((bytes : List ℕ) × (r ≡ got bytes)) ⊎ ((rc : Rc) × (r ≡ fault rc))
ReadResult-cases (got bytes) = inl (bytes, refl)
ReadResult-cases (fault rc) = inr (rc, refl)

module _ (crc32 : Crc) (g : Geometry) (grain_to_seg_idx : ℕ → ℕ) (type : SalsaType)
    (dev : Device) where
  abbrev prep : ℕ → Prepared → Prepared
  prep grain_start p = prep_segment crc32 g grain_to_seg_idx type dev grain_start p

  -- What a segment changes, by whether it is valid.
  pub prep_segment-valid :
      (grain_start : ℕ) (p : Prepared) (bytes : List ℕ)
      → read_seg_md p.md dev (md_grain g grain_start) ≡ got bytes
      → validate_seg_bytes crc32 p.md bytes type ≡ true
      → prep grain_start p ≡ prep_valid g grain_to_seg_idx grain_start bytes p
  unfolding prep_segment
  prep_segment-valid grain_start p bytes read ok = rw (prep_segment, read, ok) refl

  pub prep_segment-invalid :
      (grain_start : ℕ) (p : Prepared)
      → validate_seg_md crc32 p.md dev (md_grain g grain_start) type ≡ false
      → prep grain_start p ≡ p
  unfolding prep_segment validate_seg_md
  prep_segment-invalid grain_start p bad =
      elim (ReadResult-cases (read_seg_md p.md dev (md_grain g grain_start))) [
        | inr (rc, read) ↦ rw (prep_segment, read) refl
        | inl (bytes, read) ↦ rw (prep_segment, read, rw (validate_seg_md, read) at bad) refl
      ]

  pub valid-read :
      (grain_start : ℕ) (md : SalsaMd)
      → validate_seg_md crc32 md dev (md_grain g grain_start) type ≡ true
      → (bytes : List ℕ) × (read_seg_md md dev (md_grain g grain_start) ≡ got bytes)
        × (validate_seg_bytes crc32 md bytes type ≡ true)
  unfolding validate_seg_md
  valid-read grain_start md ok =
      elim (ReadResult-cases (read_seg_md md dev (md_grain g grain_start))) [
        | inr (rc, read) ↦ absurd (cc (rw (validate_seg_md, read) at ok))
        | inl (bytes, read) ↦ (bytes, read, rw (validate_seg_md, read) at ok)
      ]

  -- The validity of a segment does not depend on the timestamps.
  valid-restore_seg_ts :
      (md : SalsaMd) (idx ts grain_start : ℕ)
      → validate_seg_md crc32 (restore_seg_ts idx ts md) dev (md_grain g grain_start) type
        ≡ validate_seg_md crc32 md dev (md_grain g grain_start) type
  unfolding restore_seg_ts validate_seg_md read_seg_md validate_seg_bytes
  valid-restore_seg_ts md idx ts grain_start = refl

  -- The same, for all the segments.
  valid_ranges-restore_seg_ts :
      (md : SalsaMd) (idx ts : ℕ) (segs : List ℕ) (ranges : List GrainRange)
      → valid_ranges crc32 g type (restore_seg_ts idx ts md) dev segs ranges
        ≡ valid_ranges crc32 g type md dev segs ranges
  valid_ranges-restore_seg_ts md idx ts [] ranges = refl
  valid_ranges-restore_seg_ts md idx ts (s ∷ segs) ranges =
      valid_ranges-restore_seg_ts md idx ts segs _
      ∙ ap
          (λ b.
            valid_ranges crc32 g type md dev segs
              (if b then record { grain_start = s; grain_nr = net_size g } ∷ ranges else ranges))
          (valid-restore_seg_ts md idx ts s)

  prep_loop-ranges :
      (segs : List ℕ) (p : Prepared)
      → (prep_loop crc32 g grain_to_seg_idx type dev segs p).ranges
        ≡ valid_ranges crc32 g type p.md dev segs p.ranges
  unfolding prep_loop
  prep_loop-ranges [] p = refl
  prep_loop-ranges (s ∷ segs) p =
      elim (Bool-cases (validate_seg_md crc32 p.md dev (md_grain g s) type)) [
        | inr bad ↦
            ap (λ q. (prep_loop crc32 g grain_to_seg_idx type dev segs q).ranges)
              (prep_segment-invalid s p bad)
            ∙ prep_loop-ranges segs p
            ∙ rw bad refl
        | inl ok ↦
            let (bytes, read, good) = valid-read s p.md ok in
            let q = prep_valid g grain_to_seg_idx s bytes p in
            ap (λ q'. (prep_loop crc32 g grain_to_seg_idx type dev segs q').ranges)
              (prep_segment-valid s p bytes read good)
            ∙ prep_loop-ranges segs q
            ∙ valid_ranges-restore_seg_ts p.md (grain_to_seg_idx s) (seg_md_of bytes).timestamp segs
                q.ranges
            ∙ rw ok refl
      ]

  prep_loop-counts :
      (segs : List ℕ) (p : Prepared)
      → p.restored_seg_nr ≡ length p.ranges
      → (prep_loop crc32 g grain_to_seg_idx type dev segs p).restored_seg_nr
        ≡ length (prep_loop crc32 g grain_to_seg_idx type dev segs p).ranges
  unfolding prep_loop
  prep_loop-counts [] p e = e
  prep_loop-counts (s ∷ segs) p e =
      let Counted : Prepared → Type 0 = λ q.
        (prep_loop crc32 g grain_to_seg_idx type dev segs q).restored_seg_nr
        ≡ length (prep_loop crc32 g grain_to_seg_idx type dev segs q).ranges in
      elim (Bool-cases (validate_seg_md crc32 p.md dev (md_grain g s) type)) [
        | inr bad ↦ subst Counted (sym (prep_segment-invalid s p bad)) (prep_loop-counts segs p e)
        | inl ok ↦
            let (bytes, read, good) = valid-read s p.md ok in
            subst Counted (sym (prep_segment-valid s p bytes read good))
              (prep_loop-counts segs (prep_valid g grain_to_seg_idx s bytes p) (omega (arith, e)))
      ]

  -- `prep_crash_recovery` gives back to Salsa the ranges of exactly the segments whose metadata
  -- is valid for the type of the store, counts them, and returns ENODATA when there is none and
  -- 0 otherwise.
  pub prep_crash_recovery-valid_ranges :
      (segs : List ℕ) (md : SalsaMd)
      → let r = prep_crash_recovery crc32 g grain_to_seg_idx type dev segs md in
        let valid = valid_ranges crc32 g type md dev segs [] in
        (r.1.ranges ≡ valid)
        × (r.1.restored_seg_nr ≡ length valid)
        × (r.0 ≡ (if length valid == 0 then enodata else done))
  unfolding prep_crash_recovery
  prep_crash_recovery-valid_ranges segs md =
      let p : Prepared = record { md = md; ranges = []; restored_seg_nr = 0 } in
      let ranges = prep_loop-ranges segs p in
      let count = prep_loop-counts segs p refl ∙ ap length ranges in
      (ranges, count, ap (λ n. if n == 0 then enodata else done) count)
