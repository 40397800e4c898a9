-- ===== src/Metadata.antt =====
-- src/uDepot/lsa/metadata.cc, src/include/uDepot/lsa/metadata.hh and the layouts of
-- src/salsa/src/include/frontends/usalsa++/SalsaMD.hh: what the device keeps of the whole store and
-- of each of its segments. `crc32` is zlib's, an argument; so are the bytes of the stack that the
-- padding is made of.
pub mod Layout
pub mod Inited
pub mod SegTrip
pub mod DevTrip
pub mod Disjoint
pub mod Tests
use u_depot.Base.{
  ℕ, zero, suc, ◌+◌, ◌*◌, ◌/◌, ◌%◌, ◌^◌, Bool, true, false, not, ◌&&◌, ◌||◌, Option, none, some,
  List, [], ◌∷◌, ◌++◌, take, drop, length, replicate, set, get_or, ltb, ◌==◌, if◌then◌else◌, sub64,
  low32,
}
use u_depot.Util.{align_up, align_down}
use u_depot.Store.{
  Rc, done, eio, einval, Device, ReadResult, got, fault, pread_full, pwrite_full, le_bytes,
  le_value,
}

-- salsa_dev_md
pub record DevMd : Type 0 where
  pub physical_size : ℕ
  pub logical_size : ℕ
  pub segment_size : ℕ
  pub grain_size : ℕ
  pub seed : ℕ
  pub csum : ℕ

-- salsa_seg_md
pub record SegMd : Type 0 where
  pub segment_size : ℕ
  pub grain_size : ℕ
  pub timestamp : ℕ
  pub seed : ℕ
  pub ctlr_type : ℕ
  pub csum : ℕ
  pub write_nr : ℕ
  pub reloc_nr : ℕ

-- type.hh
pub data SalsaType : Type 0 where
  kv : SalsaType
  directory : SalsaType

abbrev pub type_number : SalsaType → ℕ
type_number kv = 0
type_number directory = 1

-- sizeof(salsa_dev_md), and what its checksum covers
abbrev pub dev_md_sizeb : ℕ
dev_md_sizeb = 44

abbrev pub dev_md_covered : ℕ
dev_md_covered = 40

-- sizeof(salsa_seg_md), and what its checksum covers
abbrev pub seg_md_sizeb : ℕ
seg_md_sizeb = 53

abbrev pub seg_md_covered : ℕ
seg_md_covered = 33

-- The packed fields in the order of the structs.
abbrev pub dev_md_bytes : DevMd → List ℕ
dev_md_bytes md =
    le_bytes 8 md.physical_size
    ++ (le_bytes 8 md.logical_size
        ++ (le_bytes 8 md.segment_size
            ++ (le_bytes 8 md.grain_size ++ (le_bytes 8 md.seed ++ le_bytes 4 md.csum))))

abbrev pub seg_md_bytes : SegMd → List ℕ
seg_md_bytes md =
    le_bytes 8 md.segment_size
    ++ (le_bytes 8 md.grain_size
        ++ (le_bytes 8 md.timestamp
            ++ (le_bytes 8 md.seed
                ++ (le_bytes 1 md.ctlr_type
                    ++ (le_bytes 4 md.csum
                        ++ (le_bytes 8 md.write_nr ++ le_bytes 8 md.reloc_nr))))))

abbrev pub field : ℕ → ℕ → List ℕ → ℕ
field offset n bytes = le_value (take n (drop offset bytes))

abbrev pub dev_md_of : List ℕ → DevMd
dev_md_of bytes = record {
  physical_size = field 0 8 bytes;
  logical_size = field 8 8 bytes;
  segment_size = field 16 8 bytes;
  grain_size = field 24 8 bytes;
  seed = field 32 8 bytes;
  csum = field 40 4 bytes;
}

abbrev pub seg_md_of : List ℕ → SegMd
seg_md_of bytes = record {
  segment_size = field 0 8 bytes;
  grain_size = field 8 8 bytes;
  timestamp = field 16 8 bytes;
  seed = field 24 8 bytes;
  ctlr_type = field 32 1 bytes;
  csum = field 33 4 bytes;
  write_nr = field 37 8 bytes;
  reloc_nr = field 45 8 bytes;
}

-- uDepotSalsaMD; `seg_ts` has a timestamp for each segment
pub record SalsaMd : Type 0 where
  pub seed : ℕ
  pub grain_size : ℕ
  pub restored : Bool
  pub dev_md : DevMd
  pub seg_md : SegMd
  pub seg_ts : List ℕ

abbrev no_dev_md : DevMd
no_dev_md = record {
  physical_size = 0;
  logical_size = 0;
  segment_size = 0;
  grain_size = 0;
  seed = 0;
  csum = 0;
}

abbrev no_seg_md : SegMd
no_seg_md = record {
  segment_size = 0;
  grain_size = 0;
  timestamp = 0;
  seed = 0;
  ctlr_type = 0;
  csum = 0;
  write_nr = 0;
  reloc_nr = 0;
}

-- The constructor at the time `now`, which leaves `restored_m` as it was.
unfoldable pub new_salsa_md : (now grain_size : ℕ) → (restored : Bool) → SalsaMd
new_salsa_md now grain_size restored = record {
  seed = now;
  grain_size = grain_size;
  restored = restored;
  dev_md = no_dev_md;
  seg_md = no_seg_md;
  seg_ts = [];
}

-- Without a segment the source divides by 0: there is no result.
unfoldable pub init : DevMd → SalsaMd → Option SalsaMd
init dev_md m =
    let segment_bytes = dev_md.segment_size * dev_md.grain_size % 2 ^ 64 in
    if segment_bytes == 0
    then none
    else some (record {
      seed = dev_md.seed;
      grain_size = dev_md.grain_size;
      restored = not (m.seed == dev_md.seed);
      dev_md = dev_md;
      seg_md = record m.seg_md {
        segment_size = dev_md.segment_size;
        grain_size = dev_md.grain_size;
        seed = dev_md.seed;
      };
      seg_ts = replicate (dev_md.physical_size / segment_bytes) 0;
    })

unfoldable pub default_dev_md : Device → (grain_size segment_size : ℕ) → SalsaMd → DevMd
default_dev_md dev grain_size segment_size m = record no_dev_md {
  physical_size = length dev.bytes;
  grain_size = grain_size;
  segment_size = segment_size;
  seed = m.seed;
}

-- `size` is the device's
unfoldable pub dev_md_grain_offset : SalsaMd → ℕ → ℕ
dev_md_grain_offset m size =
    let dev_md_grain_nr = align_up dev_md_sizeb m.grain_size in
    let dev_size_grain_nr = align_down size m.grain_size in
    if ltb dev_md_grain_nr dev_size_grain_nr then sub64 dev_size_grain_nr dev_md_grain_nr else 0

-- the u32 that pads a struct of `sizeb` bytes to whole grains
unfoldable pub pad_b : ℕ → ℕ → ℕ
pad_b grain_size sizeb = low32 (sub64 (align_up sizeb grain_size) sizeb)

abbrev pub pad : (ℕ → ℕ) → ℕ → List ℕ
pad stack zero = []
pad stack (suc n) = stack n ∷ pad stack n

-- seed_g
abbrev pub seed_g : ℕ
seed_g = 0xDEADBEEF

abbrev pub Crc : Type 0
Crc = ℕ → List ℕ → ℕ

-- the two calls of crc32, each cut to a u32
unfoldable pub csum_of : Crc → ℕ → List ℕ → ℕ
csum_of crc32 seed covered = low32 (crc32 (low32 (crc32 seed covered)) (le_bytes 4 seed_g))

unfoldable pub validate_dev_bytes : Crc → List ℕ → Option DevMd
validate_dev_bytes crc32 bytes =
    let dev_md = dev_md_of bytes in
    if csum_of crc32 dev_md.seed (take dev_md_covered bytes) == dev_md.csum
    then some dev_md
    else none

-- `none` is the source's false.
unfoldable pub validate_dev_md : Crc → SalsaMd → Device → Option DevMd
validate_dev_md crc32 m dev =
    elim (pread_full dev (dev_md_grain_offset m (length dev.bytes))
      (dev_md_sizeb + pad_b m.grain_size dev_md_sizeb)) [
        | fault rc ↦ none
        | got bytes ↦ validate_dev_bytes crc32 (take dev_md_sizeb bytes)
      ]

-- The bytes of the struct that is read; every error is EIO.
unfoldable pub read_seg_md : SalsaMd → Device → ℕ → ReadResult
read_seg_md m dev grain =
    elim (pread_full dev (grain * m.grain_size % 2 ^ 64)
      (seg_md_sizeb + pad_b m.grain_size seg_md_sizeb)) [
        | fault rc ↦ fault eio
        | got bytes ↦ got (take seg_md_sizeb bytes)
      ]

unfoldable pub validate_seg_bytes : Crc → SalsaMd → List ℕ → SalsaType → Bool
validate_seg_bytes crc32 m bytes type =
    let seg_md = seg_md_of bytes in
    (csum_of crc32 seg_md.seed (take seg_md_covered bytes) == seg_md.csum)
    && (seg_md.seed == m.dev_md.seed)
    && (type_number type == seg_md.ctlr_type)
    && (seg_md.segment_size == m.dev_md.segment_size)
    && (seg_md.grain_size == m.dev_md.grain_size)

unfoldable pub validate_seg_md : Crc → SalsaMd → Device → ℕ → SalsaType → Bool
validate_seg_md crc32 m dev grain type = elim (read_seg_md m dev grain) [
  | fault rc ↦ false
  | got bytes ↦ validate_seg_bytes crc32 m bytes type
]

pub record Persisted : Type 0 where
  pub rc : Rc
  pub md : SalsaMd
  pub device : Device

-- The metadata of a segment, with its checksum.
unfoldable pub signed_seg_md : Crc → SalsaMd → ℕ → SalsaType → SegMd
signed_seg_md crc32 m timestamp type =
    let seg_md : SegMd = record m.seg_md { ctlr_type = type_number type; timestamp = timestamp } in
    record seg_md { csum = csum_of crc32 seg_md.seed (take seg_md_covered (seg_md_bytes seg_md)) }

-- the two parts of the vector that is written
abbrev pub seg_iovec : Crc → (ℕ → ℕ) → ℕ → SalsaType → SalsaMd → List ℕ
seg_iovec crc32 stack timestamp type m =
    seg_md_bytes (signed_seg_md crc32 m timestamp type)
    ++ pad stack (pad_b m.grain_size seg_md_sizeb)

-- An index of no segment, which the assertion excludes, changes no timestamp.
unfoldable pub persist_seg_md :
    Crc → (ℕ → ℕ) → (grain timestamp : ℕ) → SalsaType → SalsaMd → Device → Persisted
persist_seg_md crc32 stack grain timestamp type m dev =
    let byte_offset = grain * m.grain_size % 2 ^ 64 in
    let written = seg_iovec crc32 stack timestamp type m in
    elim (dev.write_fault byte_offset (length written)) [
      | some rc ↦ record { rc = eio; md = m; device = dev }
      | none ↦ record {
        rc = done;
        md = record m { seg_ts = set m.seg_ts (grain / m.seg_md.segment_size) timestamp };
        device = pwrite_full dev byte_offset written;
      }
    ]

unfoldable pub signed_dev_md : Crc → DevMd → DevMd
signed_dev_md crc32 md = record md {
  csum = csum_of crc32 md.seed (take dev_md_covered (dev_md_bytes md));
}

abbrev pub dev_iovec : Crc → (ℕ → ℕ) → SalsaMd → List ℕ
dev_iovec crc32 stack m =
    dev_md_bytes (signed_dev_md crc32 m.dev_md) ++ pad stack (pad_b m.grain_size dev_md_sizeb)

unfoldable pub persist_dev_md : Crc → (ℕ → ℕ) → SalsaMd → Device → Rc × Device
persist_dev_md crc32 stack m dev =
    let byte_offset = dev_md_grain_offset m (length dev.bytes) in
    let written = dev_iovec crc32 stack m in
    elim (dev.write_fault byte_offset (length written)) [
      | some rc ↦ (eio, dev)
      | none ↦ (done, pwrite_full dev byte_offset written)
    ]

unfoldable pub check_dev_size : SalsaMd → (size segment_size : ℕ) → Rc
check_dev_size m size segment_size =
    let logical_size = align_down size (segment_size * m.grain_size % 2 ^ 64) in
    let byte_offset = dev_md_grain_offset m size in
    if byte_offset == 0 || ltb byte_offset logical_size then einval else done

unfoldable pub get_seg_md_size : SalsaMd → ℕ
get_seg_md_size m = align_up seg_md_sizeb m.grain_size / m.grain_size

unfoldable pub get_dev_md_size : SalsaMd → ℕ
get_dev_md_size m = align_up dev_md_sizeb m.grain_size / m.grain_size

unfoldable pub get_dev_size : SalsaMd → ℕ
get_dev_size m = sub64 m.dev_md.physical_size (align_up dev_md_sizeb m.grain_size)

unfoldable pub checksum32 : Crc → SalsaMd → ℕ → List ℕ → ℕ
checksum32 crc32 m seed bytes = low32 (crc32 (low32 (crc32 (low32 seed) bytes)) (le_bytes 8 m.seed))

unfoldable pub checksum16 : Crc → SalsaMd → ℕ → List ℕ → ℕ
unfolding checksum32
checksum16 crc32 m seed bytes = checksum32 crc32 m seed bytes % 2 ^ 16

unfoldable pub get_seg_ts : SalsaMd → ℕ → ℕ
get_seg_ts m seg_idx = get_or m.seg_ts seg_idx 0

unfoldable pub restore_seg_ts : ℕ → ℕ → SalsaMd → SalsaMd
restore_seg_ts seg_idx ts m = record m { seg_ts = set m.seg_ts seg_idx ts }
