-- ===== src/Metadata/Layout.antt =====
-- src/salsa/src/include/frontends/usalsa++/SalsaMD.hh: the structs are read as they were written.
use u_depot.Base.{ℕ, zero, suc, ◌^◌, ◌<◌, ◌≡◌, refl, ap, length, arith}
use u_depot.Store.Bytes.{le_value-le_bytes}
use u_depot.Metadata.{
  DevMd, SegMd, dev_md_bytes, dev_md_of, seg_md_bytes, seg_md_of, dev_md_sizeb, seg_md_sizeb, pad,
}

-- The fields of a struct of the device fit their types.
pub record IsDevMd (md : DevMd) : Type 0 where
  pub physical_fits : md.physical_size < 2 ^ 64
  pub logical_fits : md.logical_size < 2 ^ 64
  pub segment_fits : md.segment_size < 2 ^ 64
  pub grain_fits : md.grain_size < 2 ^ 64
  pub seed_fits : md.seed < 2 ^ 64
  pub csum_fits : md.csum < 2 ^ 32

pub record IsSegMd (md : SegMd) : Type 0 where
  pub segment_fits : md.segment_size < 2 ^ 64
  pub grain_fits : md.grain_size < 2 ^ 64
  pub timestamp_fits : md.timestamp < 2 ^ 64
  pub seed_fits : md.seed < 2 ^ 64
  pub type_fits : md.ctlr_type < 2 ^ 8
  pub csum_fits : md.csum < 2 ^ 32
  pub write_fits : md.write_nr < 2 ^ 64
  pub reloc_fits : md.reloc_nr < 2 ^ 64

pub length-dev_md_bytes : (md : DevMd) → length (dev_md_bytes md) ≡ dev_md_sizeb
length-dev_md_bytes md = refl

pub length-seg_md_bytes : (md : SegMd) → length (seg_md_bytes md) ≡ seg_md_sizeb
length-seg_md_bytes md = refl

pub length-pad : (stack : ℕ → ℕ) (n : ℕ) → length (pad stack n) ≡ n
length-pad stack zero = refl
length-pad stack (suc n) = ap suc (length-pad stack n)

pub dev_md_of-dev_md_bytes : (md : DevMd) → IsDevMd md → dev_md_of (dev_md_bytes md) ≡ md
dev_md_of-dev_md_bytes md fits = λ i. record {
  physical_size = le_value-le_bytes 8 md.physical_size (omega (arith, fits.physical_fits)) i;
  logical_size = le_value-le_bytes 8 md.logical_size (omega (arith, fits.logical_fits)) i;
  segment_size = le_value-le_bytes 8 md.segment_size (omega (arith, fits.segment_fits)) i;
  grain_size = le_value-le_bytes 8 md.grain_size (omega (arith, fits.grain_fits)) i;
  seed = le_value-le_bytes 8 md.seed (omega (arith, fits.seed_fits)) i;
  csum = le_value-le_bytes 4 md.csum (omega (arith, fits.csum_fits)) i;
}

pub seg_md_of-seg_md_bytes : (md : SegMd) → IsSegMd md → seg_md_of (seg_md_bytes md) ≡ md
seg_md_of-seg_md_bytes md fits = λ i. record {
  segment_size = le_value-le_bytes 8 md.segment_size (omega (arith, fits.segment_fits)) i;
  grain_size = le_value-le_bytes 8 md.grain_size (omega (arith, fits.grain_fits)) i;
  timestamp = le_value-le_bytes 8 md.timestamp (omega (arith, fits.timestamp_fits)) i;
  seed = le_value-le_bytes 8 md.seed (omega (arith, fits.seed_fits)) i;
  ctlr_type = le_value-le_bytes 1 md.ctlr_type (omega (arith, fits.type_fits)) i;
  csum = le_value-le_bytes 4 md.csum (omega (arith, fits.csum_fits)) i;
  write_nr = le_value-le_bytes 8 md.write_nr (omega (arith, fits.write_fits)) i;
  reloc_nr = le_value-le_bytes 8 md.reloc_nr (omega (arith, fits.reloc_fits)) i;
}
