-- ===== src/Recovery/HeaderTrip.antt =====
-- src/uDepot/lsa/udepot-directory-map.cc: `restore` finds the tables that `grow` and `shutdown` have marked,
-- and none whose footer has been invalidated.
use u_depot.Base.{
  ℕ, Option, none, some, ◌+◌, ◌^◌, ◌<◌, ◌≤◌, ◌≡◌, ◌≢◌, refl, ap, ap₂, ◌∙◌, Bool, true, false,
  Bool-cases, inl, inr, none, List, ◌++◌, take, drop, length, replicate, length-replicate, leb,
  le→leb, ◌==◌, if◌then◌else◌, arith,
}
use u_depot.Store.{Rc, Device, got, pread_full, pwrite_full}
use u_depot.Store.Bytes.{le_value-le_bytes, pread_full-over, pread_full-pwrite_full}
use u_depot.Store.Elsewhere.{length-pwrite_full, pread_full-elsewhere}
use u_depot.Metadata.{Crc, SalsaMd, directory, validate_seg_md, checksum32}
use u_depot.Metadata.SegTrip.{==-same}
use u_depot.Growth.{DirmapHdr, Geometry, net_size, new_hdr}
use u_depot.Recovery.{md_grain}
use u_depot.Recovery.Headers.{
  DirmapFtr, block_size, hdr_bytes, ftr_bytes, hdr_of, ftr_of, new_ftr, hdr_place, ftr_place,
  write_hdr, write_ftr, invalidate_ftr, found, skipped, ids_csum, judge_blocks, scan_segment,
}

pub record IsHdr (h : DirmapHdr) : Type 0 where
  pub size_fits : h.dir_size < 2 ^ 16
  pub idx_fits : h.idx < 2 ^ 16
  pub csum_fits : h.csum < 2 ^ 32
  pub ts_fits : h.ts < 2 ^ 64

pub record IsFtr (f : DirmapFtr) : Type 0 where
  pub size_fits : f.dir_size < 2 ^ 16
  pub idx_fits : f.idx < 2 ^ 16
  pub csum_fits : f.csum < 2 ^ 32
  pub ts_fits : f.ts < 2 ^ 64
  pub used_fits : f.used_bytes_kv < 2 ^ 64
  pub tot_fits : f.tot_bytes_kv < 2 ^ 64

hdr_of-hdr_bytes :
    (h : DirmapHdr) (rest : List ℕ) → IsHdr h → hdr_of (take block_size (hdr_bytes h ++ rest)) ≡ h
hdr_of-hdr_bytes h rest fits = λ i. record {
  dir_size = le_value-le_bytes 2 h.dir_size (omega (arith, fits.size_fits)) i;
  idx = le_value-le_bytes 2 h.idx (omega (arith, fits.idx_fits)) i;
  csum = le_value-le_bytes 4 h.csum (omega (arith, fits.csum_fits)) i;
  ts = le_value-le_bytes 8 h.ts (omega (arith, fits.ts_fits)) i;
}

ftr_of-ftr_bytes :
    (f : DirmapFtr) (rest : List ℕ) → IsFtr f → ftr_of (take block_size (ftr_bytes f ++ rest)) ≡ f
ftr_of-ftr_bytes f rest fits = λ i. record {
  dir_size = le_value-le_bytes 2 f.dir_size (omega (arith, fits.size_fits)) i;
  idx = le_value-le_bytes 2 f.idx (omega (arith, fits.idx_fits)) i;
  csum = le_value-le_bytes 4 f.csum (omega (arith, fits.csum_fits)) i;
  ts = le_value-le_bytes 8 f.ts (omega (arith, fits.ts_fits)) i;
  used_bytes_kv = le_value-le_bytes 8 f.used_bytes_kv (omega (arith, fits.used_fits)) i;
  tot_bytes_kv = le_value-le_bytes 8 f.tot_bytes_kv (omega (arith, fits.tot_fits)) i;
}

-- The two blocks of the region lie apart on the device, which gives them without error.
pub record AreBlocks (g : Geometry) (dev : Device) (grain_start : ℕ) : Type 0 where
  pub apart : hdr_place g grain_start + block_size ≤ ftr_place g grain_start
  pub on_device : ftr_place g grain_start + block_size ≤ length dev.bytes
  pub hdr_reads : dev.read_fault (hdr_place g grain_start) block_size ≡ none
  pub ftr_reads : dev.read_fault (ftr_place g grain_start) block_size ≡ none

scan_segment-blocks :
    (crc32 : Crc) (md : SalsaMd) (g : Geometry) (dev : Device) (s : ℕ) (hdr ftr : List ℕ)
    → validate_seg_md crc32 md dev (md_grain g s) directory ≡ true
    → pread_full dev (hdr_place g s) block_size ≡ got hdr
    → pread_full dev (ftr_place g s) block_size ≡ got ftr
    → scan_segment crc32 md g dev s ≡ judge_blocks crc32 md g s (hdr_of hdr) (ftr_of ftr)
unfolding scan_segment
scan_segment-blocks crc32 md g dev s hdr ftr valid h f = rw (scan_segment, valid, h, f) refl

judge_blocks-found :
    (crc32 : Crc) (md : SalsaMd) (g : Geometry) (s : ℕ) (hdr : DirmapHdr) (ftr : DirmapFtr)
    → ids_csum crc32 md hdr.ts hdr.dir_size hdr.idx ≡ hdr.csum
    → ids_csum crc32 md ftr.ts ftr.dir_size ftr.idx ≡ ftr.csum
    → judge_blocks crc32 md g s hdr ftr
      ≡ found (record { grain_start = s; hdr = hdr; ftr = ftr; valid_nr = net_size g })
unfolding judge_blocks
judge_blocks-found crc32 md g s hdr ftr h f = rw (judge_blocks, ==-same h, ==-same f) refl

-- The region at `s` as `grow` and `shutdown` mark it.
abbrev pub marked : Crc → SalsaMd → Geometry → (s size i now later used tot : ℕ) → Device → Device
marked crc32 md g s size i now later used tot dev =
    write_ftr g s (new_ftr crc32 md size i later used tot)
      (write_hdr g s (new_hdr crc32 md size i now) dev)

new_hdr-IsHdr :
    (crc32 : Crc) (md : SalsaMd) (size i now : ℕ)
    → now < 2 ^ 64
    → IsHdr (new_hdr crc32 md size i now)
unfolding new_hdr checksum32
new_hdr-IsHdr crc32 md size i now small = record {
  size_fits = omega arith;
  idx_fits = omega arith;
  csum_fits = omega arith;
  ts_fits = small;
}

counted_last : (b : Bool) (n : ℕ) → n < 2 ^ 64 → (if b then n else 0) < 2 ^ 64
counted_last true n small = small
counted_last false n small = omega arith

new_ftr-IsFtr :
    (crc32 : Crc) (md : SalsaMd) (size i now used tot : ℕ)
    → now < 2 ^ 64
    → used < 2 ^ 64
    → tot < 2 ^ 64
    → IsFtr (new_ftr crc32 md size i now used tot)
unfolding new_ftr checksum32
new_ftr-IsFtr crc32 md size i now used tot small used_small tot_small = record {
  size_fits = omega arith;
  idx_fits = omega arith;
  csum_fits = omega arith;
  ts_fits = small;
  used_fits = counted_last _ used used_small;
  tot_fits = counted_last _ tot tot_small;
}

module _ (g : Geometry) (dev : Device) (s : ℕ) (h : DirmapHdr) (f : DirmapFtr)
    (b : AreBlocks g dev s) where
  abbrev written : Device
  written = write_ftr g s f (write_hdr g s h dev)

  length-write_hdr : length (write_hdr g s h dev).bytes ≡ length dev.bytes
  unfolding write_hdr
  length-write_hdr =
      length-pwrite_full dev (hdr_place g s) (hdr_bytes h) (omega (arith, b.apart, b.on_device))

  hdr_read :
      pread_full written (hdr_place g s) block_size
      ≡ got (take block_size (hdr_bytes h ++ drop (hdr_place g s + 16) dev.bytes))
  unfolding write_hdr write_ftr
  hdr_read =
      pread_full-elsewhere (write_hdr g s h dev) (ftr_place g s) (ftr_bytes f) (hdr_place g s)
        block_size (omega (arith, length-write_hdr, b.on_device)) (inl b.apart)
      ∙ pread_full-over dev (hdr_place g s) block_size (hdr_bytes h)
          (omega (arith, b.apart, b.on_device)) (omega (arith, b.apart, b.on_device)) b.hdr_reads

  ftr_read :
      pread_full written (ftr_place g s) block_size
      ≡ got (take block_size (ftr_bytes f ++ drop (ftr_place g s + 32) (write_hdr g s h dev).bytes))
  unfolding write_hdr write_ftr pwrite_full
  ftr_read =
      pread_full-over (write_hdr g s h dev) (ftr_place g s) block_size (ftr_bytes f)
        (omega (arith, length-write_hdr, b.on_device))
        (omega (arith, length-write_hdr, b.on_device)) b.ftr_reads

-- When the header that `grow` and the footer that `shutdown` give a table, with 64-bit times
-- and counts, are written to blocks of a region that lie apart on a device that gives them
-- without error, and the segment's metadata is valid for a directory then, the scan of
-- `restore` finds the segment with that header and that footer.
pub scan_segment-marked :
    (crc32 : Crc) (md : SalsaMd) (g : Geometry) (dev : Device) (s size i now later used tot : ℕ)
    → now < 2 ^ 64
    → later < 2 ^ 64
    → used < 2 ^ 64
    → tot < 2 ^ 64
    → AreBlocks g dev s
    → validate_seg_md crc32 md
        (marked crc32 md g s size i now later used tot dev)
        (md_grain g s)
        directory
      ≡ true
    → scan_segment crc32 md g (marked crc32 md g s size i now later used tot dev) s
      ≡ found (record {
        grain_start = s;
        hdr = new_hdr crc32 md size i now;
        ftr = new_ftr crc32 md size i later used tot;
        valid_nr = net_size g;
      })
unfolding new_hdr new_ftr ids_csum
scan_segment-marked crc32 md g dev s size i now later used tot now_fits later_fits used_fits
      tot_fits b valid =
    let h = new_hdr crc32 md size i now in
    let f = new_ftr crc32 md size i later used tot in
    scan_segment-blocks crc32 md g (marked crc32 md g s size i now later used tot dev) s _ _ valid
      (hdr_read g dev s h f b) (ftr_read g dev s h f b)
    ∙ ap₂ (judge_blocks crc32 md g s)
        (hdr_of-hdr_bytes h (drop (hdr_place g s + 16) dev.bytes)
          (new_hdr-IsHdr crc32 md size i now now_fits))
        (ftr_of-ftr_bytes f (drop (ftr_place g s + 32) (write_hdr g s h dev).bytes)
          (new_ftr-IsFtr crc32 md size i later used tot later_fits used_fits tot_fits))
    ∙ judge_blocks-found crc32 md g s h f refl refl

judge_blocks-zeroes :
    (crc32 : Crc) (md : SalsaMd) (g : Geometry) (s : ℕ) (hdr : DirmapHdr) (ftr : DirmapFtr)
    → (ids_csum crc32 md ftr.ts ftr.dir_size ftr.idx == ftr.csum) ≡ false
    → judge_blocks crc32 md g s hdr ftr ≡ skipped
unfolding judge_blocks
judge_blocks-zeroes crc32 md g s hdr ftr e =
    elim (Bool-cases (ids_csum crc32 md hdr.ts hdr.dir_size hdr.idx == hdr.csum)) [
      | inl good ↦ rw (judge_blocks, good, e) refl
      | inr bad ↦ rw (judge_blocks, bad) refl
    ]

abbrev zero_ftr : DirmapFtr
zero_ftr = record { dir_size = 0; idx = 0; csum = 0; ts = 0; used_bytes_kv = 0; tot_bytes_kv = 0 }

ftr_of-zeroes : ftr_of (take block_size (replicate block_size 0)) ≡ zero_ftr
ftr_of-zeroes = refl

hdr_readable :
    (dev : Device) (at size : ℕ)
    → at + size ≤ length dev.bytes
    → dev.read_fault at size ≡ none
    → (bytes : List ℕ) × (pread_full dev at size ≡ got bytes)
unfolding pread_full
hdr_readable dev at size fits well =
    let inside : leb (at + size) (length dev.bytes) ≡ true = le→leb _ _ fits in
    (take size (drop at dev.bytes), rw (pread_full, well, inside) refl)

-- What the device has does not depend on the result of `msync`.
invalidate_ftr-device :
    (msync : Option Rc) (g : Geometry) (s : ℕ) (dev : Device)
    → (invalidate_ftr msync g s dev).1 ≡ pwrite_full dev (ftr_place g s) (replicate block_size 0)
unfolding invalidate_ftr
invalidate_ftr-device none g s dev = refl
invalidate_ftr-device (some rc) g s dev = refl

-- After `invalidate_ftr` of a region whose blocks lie apart on a device that gives them without
-- error, and with any result of `msync`, the scan of `restore` passes the segment by, unless
-- the checksum of a footer of zeroes is 0.
pub scan_segment-invalidate_ftr :
    (crc32 : Crc) (md : SalsaMd) (g : Geometry) (msync : Option Rc) (dev : Device) (s : ℕ)
    → AreBlocks g dev s
    → ids_csum crc32 md 0 0 0 ≢ 0
    → scan_segment crc32 md g (invalidate_ftr msync g s dev).1 s ≡ skipped
unfolding scan_segment pwrite_full
scan_segment-invalidate_ftr crc32 md g msync dev s b odd =
    let dev' = pwrite_full dev (ftr_place g s) (replicate block_size 0) in
    let n = length-replicate {A = ℕ} block_size 0 in
    let fits : ftr_place g s + length (replicate {A = ℕ} block_size 0) ≤ length dev.bytes =
      omega (arith, n, b.on_device) in
    let same = length-pwrite_full dev (ftr_place g s) (replicate block_size 0) fits in
    let zeroes : pread_full dev' (ftr_place g s) block_size
        ≡ got (take block_size (replicate block_size 0)) =
      pread_full-pwrite_full dev (ftr_place g s) block_size (replicate block_size 0) fits
        (omega (arith, n)) b.ftr_reads in
    let (hdr, h) =
      hdr_readable dev' (hdr_place g s) block_size (omega (arith, same, b.apart, b.on_device))
        b.hdr_reads in
    let refused : (ids_csum crc32 md 0 0 0 == 0) ≡ false = ground (arith, odd) in
    let shut : scan_segment crc32 md g dev' s ≡ skipped =
      elim (Bool-cases (validate_seg_md crc32 md dev' (md_grain g s) directory)) [
        | inr no_md ↦ rw (scan_segment, no_md) refl
        | inl valid ↦
            scan_segment-blocks crc32 md g dev' s hdr _ valid h zeroes
            ∙ ap (judge_blocks crc32 md g s (hdr_of hdr)) ftr_of-zeroes
            ∙ judge_blocks-zeroes crc32 md g s (hdr_of hdr) zero_ftr refused
      ] in
    ap (λ x. scan_segment crc32 md g x s) (invalidate_ftr-device msync g s dev) ∙ shut
