-- ===== src/Recovery/HeaderTests.antt =====
-- A segment of 24 grains with a table of a directory.
use u_depot.Base.{◌≡◌, ◌≢◌, refl, true, false, none, [], ◌∷◌, replicate, length, arith}
use u_depot.Util.{align_up, uceil_up, udiv_round_up}
use u_depot.Store.{Device, pread_full, pwrite_full}
use u_depot.Metadata.{
  SalsaMd, directory, validate_seg_md, read_seg_md, validate_seg_bytes, csum_of, pad_b,
  persist_seg_md, signed_seg_md, checksum32,
}
use u_depot.Metadata.Tests.{crc32, stack}
use u_depot.Growth.{Geometry, net_size, new_hdr}
use u_depot.Recovery.{md_grain}
use u_depot.Recovery.Headers.{
  found, skipped, new_ftr, scan_segment, invalidate_ftr, write_ftr, write_hdr, ids_csum,
}
use u_depot.Recovery.HeaderTrip.{
  AreBlocks, marked, scan_segment-marked, scan_segment-invalidate_ftr,
}

abbrev geometry : Geometry
geometry = record { seg_size = 24; seg_md_size = 1; grain_size = 64 }

abbrev md : SalsaMd
md = record {
  seed = 9;
  grain_size = 64;
  restored = false;
  dev_md = record {
    physical_size = 1600;
    logical_size = 0;
    segment_size = 24;
    grain_size = 64;
    seed = 9;
    csum = 0;
  };
  seg_md = record {
    segment_size = 24;
    grain_size = 64;
    timestamp = 0;
    seed = 9;
    ctlr_type = 0;
    csum = 0;
    write_nr = 0;
    reloc_nr = 0;
  };
  seg_ts = 0 ∷ [];
}

abbrev blank : Device
blank = record { bytes = replicate 1600 0; read_fault = λ _ _. none; write_fault = λ _ _. none }

abbrev device : Device
device = (persist_seg_md crc32 stack 23 1 directory md blank).device

marked-valid :
    validate_seg_md crc32 md
      (marked crc32 md geometry 0 1 0 7 8 100 200 device)
      (md_grain geometry 0)
      directory
    ≡ true
unfolding validate_seg_md read_seg_md validate_seg_bytes csum_of pad_b persist_seg_md signed_seg_md
    checksum32 new_hdr new_ftr write_hdr write_ftr pread_full pwrite_full align_up uceil_up
    udiv_round_up
marked-valid = refl

device-size : length device.bytes ≡ 1600
unfolding persist_seg_md pwrite_full pad_b align_up uceil_up udiv_round_up signed_seg_md
device-size = refl

blocks : AreBlocks geometry device 0
unfolding persist_seg_md pwrite_full
blocks = record {
  apart = omega arith;
  on_device = omega (arith, device-size);
  hdr_reads = refl;
  ftr_reads = refl;
}

scan_segment-marked_example :
    scan_segment crc32 md geometry (marked crc32 md geometry 0 1 0 7 8 100 200 device) 0
    ≡ found (record {
      grain_start = 0;
      hdr = new_hdr crc32 md 1 0 7;
      ftr = new_ftr crc32 md 1 0 8 100 200;
      valid_nr = net_size geometry;
    })
scan_segment-marked_example =
    scan_segment-marked crc32 md geometry device 0 1 0 7 8 100 200 (omega arith) (omega arith)
      (omega arith) (omega arith) blocks marked-valid

odd_checksum : ids_csum crc32 md 0 0 0 ≢ 0
unfolding ids_csum checksum32
odd_checksum = λ e. absurd (omega (arith, e))

scan_segment-invalidate_ftr_example :
    scan_segment crc32 md geometry (invalidate_ftr none geometry 0 device).1 0 ≡ skipped
scan_segment-invalidate_ftr_example =
    scan_segment-invalidate_ftr crc32 md geometry none device 0 blocks odd_checksum
