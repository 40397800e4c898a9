-- ===== src/Metadata/Tests.antt =====
-- A device of ten grains of 64 bytes, with two segments of four.
use u_depot.Base.{
  ℕ, ◌+◌, ◌*◌, ◌/◌, ◌%◌, ◌^◌, ◌≤◌, ◌≡◌, refl, inl, false, none, some, [], ◌∷◌, length, replicate,
  ◌==◌, length-replicate, arith,
}
use u_depot.Util.{align_up, align_down, udiv_round_up, uceil_up}
use u_depot.Store.{done, Device, got}
use u_depot.Metadata.{
  Crc, DevMd, SegMd, SalsaMd, kv, directory, type_number, new_salsa_md, init, pad_b,
  dev_md_grain_offset, check_dev_size, validate_dev_md, read_seg_md, validate_seg_md, seg_md_bytes,
  signed_seg_md, signed_dev_md, persist_seg_md, persist_dev_md, get_seg_ts,
}
use u_depot.Metadata.Layout.{IsDevMd, IsSegMd}
use u_depot.Metadata.Inited.{IsInited, started, persisted, InUse-IsInited}
use u_depot.Metadata.SegTrip.{IsReachable, validate_seg_md-persist_seg_md}
use u_depot.Metadata.DevTrip.{IsPlaced, dev_extent, validate_dev_md-persist_dev_md}
use u_depot.Metadata.Disjoint.{
  IsUsual, check_dev_size_lem, validate_dev_md-persist_seg_md, read_seg_md-persist_seg_md_other,
}

abbrev pub crc32 : Crc
crc32 = λ seed bytes. seed + length bytes

abbrev pub stack : ℕ → ℕ
stack = λ n. n

abbrev pub device : Device
device = record { bytes = replicate 640 0; read_fault = λ _ _. none; write_fault = λ _ _. none }

abbrev dev_md : DevMd
dev_md = record {
  physical_size = 640;
  logical_size = 0;
  segment_size = 4;
  grain_size = 64;
  seed = 9;
  csum = 0;
}

abbrev seg_md : SegMd
seg_md = record {
  segment_size = 4;
  grain_size = 64;
  timestamp = 0;
  seed = 9;
  ctlr_type = 0;
  csum = 0;
  write_nr = 0;
  reloc_nr = 0;
}

abbrev pub md : SalsaMd
md = record {
  seed = 9;
  grain_size = 64;
  restored = false;
  dev_md = dev_md;
  seg_md = seg_md;
  seg_ts = 0 ∷ 0 ∷ [];
}

md-init : init dev_md (new_salsa_md 9 64 false) ≡ some md
unfolding init new_salsa_md
md-init = refl

InUse-IsInited_example : IsInited (persist_seg_md crc32 stack 3 5 kv md device).md
InUse-IsInited_example =
    InUse-IsInited
      (persisted crc32 stack 3 5 kv device (started dev_md (new_salsa_md 9 64 false) md-init))

pub md-IsInited : IsInited md
md-IsInited = InUse-IsInited (started dev_md (new_salsa_md 9 64 false) md-init)

pub seg_md-IsSegMd : IsSegMd md.seg_md
seg_md-IsSegMd = record {
  segment_fits = omega arith;
  grain_fits = omega arith;
  timestamp_fits = omega arith;
  seed_fits = omega arith;
  type_fits = omega arith;
  csum_fits = omega arith;
  write_fits = omega arith;
  reloc_fits = omega arith;
}

pub third_grain : IsReachable md device 3
unfolding pad_b align_up uceil_up udiv_round_up
third_grain = record {
  on_device = omega (arith, length-replicate {A = ℕ} 640 0);
  writes = refl;
  reads = refl;
}

validate_seg_md-persist_seg_md_example :
    let r = persist_seg_md crc32 stack 3 5 kv md device in
    (r.rc ≡ done)
    × (validate_seg_md crc32 r.md r.device 3 directory ≡ (type_number directory == type_number kv))
    × (read_seg_md r.md r.device 3 ≡ got (seg_md_bytes (signed_seg_md crc32 md 5 kv)))
    × (get_seg_ts r.md (3 / md.seg_md.segment_size) ≡ 5)
validate_seg_md-persist_seg_md_example =
    validate_seg_md-persist_seg_md crc32 stack md device 3 5 kv directory md-IsInited seg_md-IsSegMd
      (omega arith) third_grain (omega arith)

dev_md-IsDevMd : IsDevMd md.dev_md
dev_md-IsDevMd = record {
  physical_fits = omega arith;
  logical_fits = omega arith;
  segment_fits = omega arith;
  grain_fits = omega arith;
  seed_fits = omega arith;
  csum_fits = omega arith;
}

placed : IsPlaced md device
unfolding pad_b align_up align_down uceil_up udiv_round_up dev_md_grain_offset
placed = record {
  on_device = omega (arith, length-replicate {A = ℕ} 640 0);
  writes = refl;
  reads = refl;
}

validate_dev_md-persist_dev_md_example :
    let r = persist_dev_md crc32 stack md device in
    (r.0 ≡ done)
    × (validate_dev_md crc32 (new_salsa_md 7 64 false) r.1 ≡ some (signed_dev_md crc32 dev_md))
unfolding new_salsa_md
validate_dev_md-persist_dev_md_example =
    validate_dev_md-persist_dev_md crc32 stack md (new_salsa_md 7 64 false) device dev_md-IsDevMd
      placed refl

md-IsUsual : IsUsual md (length device.bytes)
md-IsUsual = record {
  grain_pos = omega arith;
  grain_small = omega arith;
  size_small = omega (arith, length-replicate {A = ℕ} 640 0);
}

enough_spare : check_dev_size md 640 4 ≡ done
unfolding check_dev_size align_up align_down uceil_up udiv_round_up dev_md_grain_offset
enough_spare = refl

check_dev_size_lem_example :
    (align_down 640 (4 * md.grain_size % 2 ^ 64) ≤ dev_md_grain_offset md 640)
    × (dev_md_grain_offset md 640 + dev_extent md ≤ 640)
check_dev_size_lem_example =
    check_dev_size_lem md 640 4
      (record { grain_pos = omega arith; grain_small = omega arith; size_small = omega arith })
      enough_spare

validate_dev_md-persist_seg_md_example :
    validate_dev_md crc32 md (persist_seg_md crc32 stack 3 5 kv md device).device
    ≡ validate_dev_md crc32 md device
unfolding pad_b align_up align_down uceil_up udiv_round_up
validate_dev_md-persist_seg_md_example =
    validate_dev_md-persist_seg_md crc32 stack md device 4 3 5 kv md-IsUsual enough_spare
      (omega arith)

read_seg_md-persist_seg_md_other_example :
    read_seg_md md (persist_seg_md crc32 stack 7 5 kv md device).device 3 ≡ read_seg_md md device 3
unfolding pad_b align_up uceil_up udiv_round_up
read_seg_md-persist_seg_md_other_example =
    read_seg_md-persist_seg_md_other crc32 stack md device 7 3 5 kv
      (omega (arith, length-replicate {A = ℕ} 640 0)) (inl (omega arith))
