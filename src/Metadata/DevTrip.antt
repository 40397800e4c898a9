-- ===== src/Metadata/DevTrip.antt =====
-- src/uDepot/lsa/metadata.cc: the metadata of the device, persisted and validated again.
use u_depot.Base.{
  ℕ, ◌+◌, ◌≤◌, ◌≡◌, refl, ap, ap₂, ◌∙◌, true, none, some, List, take, take-take, length,
  length-append, ◌==◌, if◌then◌else◌, arith,
}
use u_depot.Store.{done, Device, got, pread_full, pwrite_full}
use u_depot.Store.Bytes.{pread_full-pwrite_full, take-front}
use u_depot.Store.Elsewhere.{length-pwrite_full}
use u_depot.Metadata.{
  Crc, DevMd, SalsaMd, dev_md_bytes, dev_md_sizeb, dev_md_covered, pad, pad_b, csum_of,
  dev_md_grain_offset, validate_dev_bytes, validate_dev_md, signed_dev_md, dev_iovec,
  persist_dev_md,
}
use u_depot.Metadata.SegTrip.{==-same}
use u_depot.Metadata.Layout.{IsDevMd, length-dev_md_bytes, length-pad, dev_md_of-dev_md_bytes}

abbrev pub dev_extent : SalsaMd → ℕ
dev_extent m = dev_md_sizeb + pad_b m.grain_size dev_md_sizeb

abbrev pub dev_place : SalsaMd → Device → ℕ
dev_place m dev = dev_md_grain_offset m (length dev.bytes)

-- The metadata of the device lies on the device, which takes and gives it without error.
pub record IsPlaced (m : SalsaMd) (dev : Device) : Type 0 where
  pub on_device : dev_place m dev + dev_extent m ≤ length dev.bytes
  pub writes : dev.write_fault (dev_place m dev) (dev_extent m) ≡ none
  pub reads : dev.read_fault (dev_place m dev) (dev_extent m) ≡ none

signed_dev_md-IsDevMd : (crc32 : Crc) (md : DevMd) → IsDevMd md → IsDevMd (signed_dev_md crc32 md)
unfolding signed_dev_md csum_of
signed_dev_md-IsDevMd crc32 md fits = record {
  physical_fits = fits.physical_fits;
  logical_fits = fits.logical_fits;
  segment_fits = fits.segment_fits;
  grain_fits = fits.grain_fits;
  seed_fits = fits.seed_fits;
  csum_fits = omega arith;
}

own_csum :
    (crc32 : Crc) (md : DevMd)
    → (csum_of crc32
          (signed_dev_md crc32 md).seed
          (take dev_md_covered (dev_md_bytes (signed_dev_md crc32 md)))
        == (signed_dev_md crc32 md).csum)
      ≡ true
unfolding signed_dev_md
own_csum crc32 md = ==-same refl

validate_dev_bytes-signed :
    (crc32 : Crc) (md : DevMd)
    → IsDevMd md
    → validate_dev_bytes crc32 (dev_md_bytes (signed_dev_md crc32 md))
      ≡ some (signed_dev_md crc32 md)
unfolding validate_dev_bytes
validate_dev_bytes-signed crc32 md fits =
    let bytes = dev_md_bytes (signed_dev_md crc32 md) in
    ap (λ k. if csum_of crc32 k.seed (take dev_md_covered bytes) == k.csum then some k else none)
      (dev_md_of-dev_md_bytes _ (signed_dev_md-IsDevMd crc32 md fits))
    ∙ rw own_csum refl

length-dev_iovec :
    (crc32 : Crc) (stack : ℕ → ℕ) (m : SalsaMd) → length (dev_iovec crc32 stack m) ≡ dev_extent m
length-dev_iovec crc32 stack m = omega (
  arith,
  length-append (dev_md_bytes (signed_dev_md crc32 m.dev_md))
      (pad stack (pad_b m.grain_size dev_md_sizeb)),
  length-pad stack (pad_b m.grain_size dev_md_sizeb),
  length-dev_md_bytes (signed_dev_md crc32 m.dev_md),
)

-- The validation, at a given place, of what the device gives there.
pub validate_dev_md-at :
    (crc32 : Crc) (m : SalsaMd) (dev : Device) (place extent : ℕ) (bytes : List ℕ)
    → dev_place m dev ≡ place
    → dev_extent m ≡ extent
    → pread_full dev place extent ≡ got bytes
    → validate_dev_md crc32 m dev ≡ validate_dev_bytes crc32 (take dev_md_sizeb bytes)
unfolding validate_dev_md
validate_dev_md-at crc32 m dev place extent bytes p e read =
    rw (validate_dev_md, ap₂ (pread_full dev) p e ∙ read) refl

-- When metadata of a device, whose fields fit their types, is persisted, on a device that has
-- the space for it and makes no error there, then the call succeeds and `validate_dev_md` of an
-- instance with the same size of grains gives it back, with its checksum.
pub validate_dev_md-persist_dev_md :
    (crc32 : Crc) (stack : ℕ → ℕ) (m m' : SalsaMd) (dev : Device)
    → IsDevMd m.dev_md
    → IsPlaced m dev
    → m'.grain_size ≡ m.grain_size
    → let r = persist_dev_md crc32 stack m dev in
      (r.0 ≡ done) × (validate_dev_md crc32 m' r.1 ≡ some (signed_dev_md crc32 m.dev_md))
unfolding persist_dev_md dev_md_grain_offset
validate_dev_md-persist_dev_md crc32 stack m m' dev fits ok same =
    let n = length-dev_iovec crc32 stack m in
    let written = dev_iovec crc32 stack m in
    let well : dev.write_fault (dev_place m dev) (length written) ≡ none =
      ap (dev.write_fault (dev_place m dev)) n ∙ ok.writes in
    let inside : dev_place m dev + length written ≤ length dev.bytes =
      omega (arith, ok.on_device, n) in
    let after = pwrite_full dev (dev_place m dev) written in
    let moved : dev_place m' after ≡ dev_place m dev =
      rw (same, length-pwrite_full dev (dev_place m dev) written inside) refl in
    let extent : dev_extent m' ≡ dev_extent m = rw same refl in
    let read =
      pread_full-pwrite_full dev (dev_place m dev) (dev_extent m) written inside (omega (arith, n))
        ok.reads in
    let struct : take dev_md_sizeb (take (dev_extent m) written)
        ≡ dev_md_bytes (signed_dev_md crc32 m.dev_md) =
      take-take dev_md_sizeb (dev_extent m) written (omega arith)
      ∙ take-front dev_md_sizeb (dev_md_bytes (signed_dev_md crc32 m.dev_md))
          (pad stack (pad_b m.grain_size dev_md_sizeb))
          (length-dev_md_bytes (signed_dev_md crc32 m.dev_md)) in
    rw (persist_dev_md, well)
      (
        refl,
        validate_dev_md-at crc32 m' after _ _ _ moved extent read
            ∙ ap (validate_dev_bytes crc32) struct
            ∙ validate_dev_bytes-signed crc32 m.dev_md fits,
      )
