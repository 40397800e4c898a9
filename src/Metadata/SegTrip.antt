-- ===== src/Metadata/SegTrip.antt =====
-- src/uDepot/lsa/metadata.cc: the metadata of a segment, persisted and read again.
use u_depot.Base.{
  ℕ, ◌+◌, ◌*◌, ◌/◌, ◌%◌, ◌^◌, ◌<◌, ◌≤◌, ◌≡◌, refl, ap, ◌∙◌, Bool, true, ◌&&◌, none, List, take,
  take-take, length, set, get_or-set_self, length-append, ◌==◌, arith,
}
use u_depot.Store.{done, Device, got, pwrite_full}
use u_depot.Store.Bytes.{pread_full-pwrite_full, take-front}
use u_depot.Metadata.{
  Crc, SalsaMd, SalsaType, kv, directory, type_number, seg_md_covered, seg_md_bytes, seg_md_of,
  seg_md_sizeb, pad, pad_b, csum_of, read_seg_md, validate_seg_bytes, validate_seg_md,
  signed_seg_md, seg_iovec, persist_seg_md, get_seg_ts,
}
use u_depot.Metadata.Layout.{IsSegMd, length-seg_md_bytes, length-pad, seg_md_of-seg_md_bytes}
use u_depot.Metadata.Inited.{IsInited}

-- the bytes that the metadata of a segment takes on the device, and where
abbrev pub seg_extent : SalsaMd → ℕ
seg_extent m = seg_md_sizeb + pad_b m.grain_size seg_md_sizeb

abbrev pub seg_place : SalsaMd → ℕ → ℕ
seg_place m grain = grain * m.grain_size % 2 ^ 64

-- The metadata of the segment lies on the device, and the device takes and gives it without error.
pub record IsReachable (m : SalsaMd) (dev : Device) (grain : ℕ) : Type 0 where
  pub on_device : seg_place m grain + seg_extent m ≤ length dev.bytes
  pub writes : dev.write_fault (seg_place m grain) (seg_extent m) ≡ none
  pub reads : dev.read_fault (seg_place m grain) (seg_extent m) ≡ none

type_number-lt : (type : SalsaType) → type_number type < 2 ^ 8
type_number-lt kv = omega arith
type_number-lt directory = omega arith

module _ (crc32 : Crc) (stack : ℕ → ℕ) (m : SalsaMd) (dev : Device) (grain ts : ℕ)
    (type : SalsaType) where
  abbrev written : List ℕ
  written = seg_iovec crc32 stack ts type m

  pub length-written : length written ≡ seg_extent m
  length-written = omega (
    arith,
    length-append (seg_md_bytes (signed_seg_md crc32 m ts type))
        (pad stack (pad_b m.grain_size seg_md_sizeb)),
    length-pad stack (pad_b m.grain_size seg_md_sizeb),
    length-seg_md_bytes (signed_seg_md crc32 m ts type),
  )

  pub persist_seg_md-done :
      IsReachable m dev grain
      → persist_seg_md crc32 stack grain ts type m dev ≡ record {
        rc = done;
        md = record m { seg_ts = set m.seg_ts (grain / m.seg_md.segment_size) ts };
        device = pwrite_full dev (seg_place m grain) written;
      }
  unfolding persist_seg_md
  persist_seg_md-done ok =
      let well : dev.write_fault (seg_place m grain) (length written) ≡ none =
        ap (dev.write_fault (seg_place m grain)) length-written ∙ ok.writes in
      rw (persist_seg_md, well) refl

  pub read_seg_md-written :
      IsReachable m dev grain
      → read_seg_md m (pwrite_full dev (seg_place m grain) written) grain
        ≡ got (seg_md_bytes (signed_seg_md crc32 m ts type))
  unfolding read_seg_md
  read_seg_md-written ok =
      let fits : seg_place m grain + length written ≤ length dev.bytes =
        omega (arith, ok.on_device, length-written) in
      let whole : seg_extent m ≤ length written = omega (arith, length-written) in
      rw
        (
          read_seg_md,
          pread_full-pwrite_full dev (seg_place m grain) (seg_extent m) written fits whole ok.reads,
        )
        (ap got (
          take-take seg_md_sizeb (seg_extent m) written (omega arith)
          ∙ take-front seg_md_sizeb (seg_md_bytes (signed_seg_md crc32 m ts type))
              (pad stack (pad_b m.grain_size seg_md_sizeb))
              (length-seg_md_bytes (signed_seg_md crc32 m ts type))))

-- The struct that `persist_seg_md` writes, under the timestamp and the type, fits its types.
pub signed_seg_md-IsSegMd :
    (crc32 : Crc) (m : SalsaMd) (ts : ℕ) (type : SalsaType)
    → IsSegMd m.seg_md
    → ts < 2 ^ 64
    → IsSegMd (signed_seg_md crc32 m ts type)
unfolding signed_seg_md csum_of
signed_seg_md-IsSegMd crc32 m ts type fits small = record {
  segment_fits = fits.segment_fits;
  grain_fits = fits.grain_fits;
  timestamp_fits = small;
  seed_fits = fits.seed_fits;
  type_fits = type_number-lt type;
  csum_fits = omega arith;
  write_fits = fits.write_fits;
  reloc_fits = fits.reloc_fits;
}

pub ==-same : {a b : ℕ} → a ≡ b → (a == b) ≡ true
==-same e = ground (arith, e)

only_third :
    (a b c d e : Bool) → a ≡ true → b ≡ true → d ≡ true → e ≡ true → (a && b && c && d && e) ≡ c
only_third a b c d e ha hb hd he = ground (arith, ha, hb, hd, he)

-- What is written is valid for its own type of segment, and for no other.
pub validate_seg_bytes-signed :
    (crc32 : Crc) (m : SalsaMd) (ts : ℕ) (type type' : SalsaType)
    → IsInited m
    → IsSegMd m.seg_md
    → ts < 2 ^ 64
    → validate_seg_bytes crc32 m (seg_md_bytes (signed_seg_md crc32 m ts type)) type'
      ≡ (type_number type' == type_number type)
unfolding validate_seg_bytes signed_seg_md
validate_seg_bytes-signed crc32 m ts type type' i fits small =
    let md = signed_seg_md crc32 m ts type in
    let bytes = seg_md_bytes md in
    let whole : seg_md_of bytes ≡ md =
      seg_md_of-seg_md_bytes md (signed_seg_md-IsSegMd crc32 m ts type fits small) in
    ap
      (λ k.
        (csum_of crc32 k.seed (take seg_md_covered bytes) == k.csum)
        && (k.seed == m.dev_md.seed)
        && (type_number type' == k.ctlr_type)
        && (k.segment_size == m.dev_md.segment_size)
        && (k.grain_size == m.dev_md.grain_size))
      whole
    ∙ only_third _ _ (type_number type' == type_number type) _ _ (==-same refl)
        (==-same i.same_seed) (==-same i.same_segment_size) (==-same i.same_grain_size)

-- When initialised metadata, whose fields fit their types, persists a 64-bit timestamp for a
-- segment that has one, on a device that holds the segment's metadata and makes no error there,
-- then the call succeeds, what is read back is what was signed, it is valid for the type that
-- it was written for and for no other, and the timestamp is the segment's.
pub validate_seg_md-persist_seg_md :
    (crc32 : Crc) (stack : ℕ → ℕ) (m : SalsaMd) (dev : Device) (grain ts : ℕ)
    (type type' : SalsaType)
    → IsInited m
    → IsSegMd m.seg_md
    → ts < 2 ^ 64
    → IsReachable m dev grain
    → grain / m.seg_md.segment_size < length m.seg_ts
    → let r = persist_seg_md crc32 stack grain ts type m dev in
      (r.rc ≡ done)
      × (validate_seg_md crc32 r.md r.device grain type' ≡ (type_number type' == type_number type))
      × (read_seg_md r.md r.device grain ≡ got (seg_md_bytes (signed_seg_md crc32 m ts type)))
      × (get_seg_ts r.md (grain / m.seg_md.segment_size) ≡ ts)
unfolding validate_seg_md get_seg_ts read_seg_md validate_seg_bytes
validate_seg_md-persist_seg_md crc32 stack m dev grain ts type type' i fits small ok real =
    let read = read_seg_md-written crc32 stack m dev grain ts type ok in
    let valid : validate_seg_md crc32 m
          (pwrite_full dev (seg_place m grain) (seg_iovec crc32 stack ts type m)) grain type'
        ≡ (type_number type' == type_number type) =
      rw (validate_seg_md, read) (validate_seg_bytes-signed crc32 m ts type type' i fits small) in
    rw (persist_seg_md-done crc32 stack m dev grain ts type ok)
      (refl, valid, read, get_or-set_self m.seg_ts (grain / m.seg_md.segment_size) ts 0 real)
