-- ===== src/Recovery/Tests.antt =====
-- Two segments, of which one has metadata, after a crash.
use u_depot.Base.{ℕ, ◌/◌, ◌≡◌, List, [], ◌∷◌, length, ◌==◌, if◌then◌else◌, arith}
use u_depot.Store.{done, enodata, Device, ReadResult, got, fault}
use u_depot.Metadata.{kv, persist_seg_md, get_seg_ts}
use u_depot.Metadata.Tests.{crc32, stack, device, md, md-IsInited, seg_md-IsSegMd, third_grain}
use u_depot.Growth.{Geometry}
use u_depot.Recovery.{prep_crash_recovery}
use u_depot.Recovery.Segments.{valid_ranges, prep_crash_recovery-valid_ranges}
use u_depot.Recovery.Timestamps.{prep_crash_recovery-persist_seg_md}

abbrev geometry : Geometry
geometry = record { seg_size = 4; seg_md_size = 1; grain_size = 64 }

abbrev seg_idx : ℕ → ℕ
seg_idx = λ grain. grain / 4

abbrev segs : List ℕ
segs = 4 ∷ 0 ∷ []

abbrev crashed : Device
crashed = (persist_seg_md crc32 stack 3 5 kv md device).device

prep_crash_recovery-valid_ranges_example :
    let r = prep_crash_recovery crc32 geometry seg_idx kv crashed segs md in
    let valid = valid_ranges crc32 geometry kv md crashed segs [] in
    (r.1.ranges ≡ valid)
    × (r.1.restored_seg_nr ≡ length valid)
    × (r.0 ≡ (if length valid == 0 then enodata else done))
prep_crash_recovery-valid_ranges_example =
    prep_crash_recovery-valid_ranges crc32 geometry seg_idx kv crashed segs md

prep_crash_recovery-persist_seg_md_example :
    get_seg_ts (prep_crash_recovery crc32 geometry seg_idx kv crashed segs md).1.md 0 ≡ 5
prep_crash_recovery-persist_seg_md_example =
    prep_crash_recovery-persist_seg_md crc32 geometry seg_idx stack kv md device (4 ∷ []) []
      (0 ∷ 0 ∷ []) 0 5 md-IsInited seg_md-IsSegMd (omega arith) third_grain (omega arith) tt

abbrev bytes_of : ReadResult → List ℕ
bytes_of (got bytes) = bytes
bytes_of (fault rc) = []
