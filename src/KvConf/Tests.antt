-- ===== src/KvConf/Tests.antt =====
-- A configuration with odd sizes, on pages of 4096 bytes.
use u_depot.Base.{ℕ, ◌^◌, ◌<◌, ◌≡◌, ◌⊎◌, none, some, arith}
use u_depot.KvConf.{KvConf, salsa_trt_uring, next_segment_size, validate_and_sanitize_parameters}
use u_depot.KvConf.Segments.{next_segment_size-ends}
use u_depot.KvConf.Sane.{IsSane, asked_grain_size, validate_and_sanitize_parameters-IsSane}

abbrev odd : KvConf
odd = record {
  type = salsa_trt_uring;
  size = 0;
  segment_size = 1001;
  grain_size = 700;
  overprovision = 1;
}

validate_and_sanitize_parameters-IsSane_example :
    IsSane (2 ^ 12) (asked_grain_size odd) (validate_and_sanitize_parameters (2 ^ 12) odd)
validate_and_sanitize_parameters-IsSane_example =
    validate_and_sanitize_parameters-IsSane 12 odd (omega arith)

next_segment_size-ends_example :
    (next_segment_size 4096 512 100000 64 ≡ some none)
    ⊎ ((n : ℕ) × (next_segment_size 4096 512 100000 64 ≡ some (some n)) × (0 < n) × (n < 64))
next_segment_size-ends_example =
    next_segment_size-ends 4096 512 100000 64 (omega arith) (omega arith)
