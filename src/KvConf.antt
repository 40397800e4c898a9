-- ===== src/KvConf.antt =====
-- src/uDepot/kv-conf.cc and src/include/uDepot/kv-conf.hh: the configuration of a store, and in
-- src/uDepot/udepot-lsa.cc the search for a size of segments that the device allows. The size of a page
-- is the system's.
pub mod Segments
pub mod Sane
mod Tests
use u_depot.Base.{
  ℕ, zero, suc, ◌+◌, ◌-◌, ◌*◌, ◌/◌, ◌%◌, ◌^◌, min, max, Bool, true, false, ltb, ◌==◌, Option, none,
  some, if◌then◌else◌, sub64,
}
use u_depot.Util.{align_up, align_down, round_down_pow2}
use u_depot.HashEntry.{unused_pba_entry}

-- kv_type; the constructor of the last one is not a type of a store
pub data KvType : Type 0 where
  salsa : KvType
  salsa_o_direct : KvType
  salsa_spdk : KvType
  salsa_trt_aio : KvType
  salsa_trt_uring : KvType
  salsa_trt_spdk : KvType
  salsa_trt_spdk_array : KvType
  salsa_o_direct_mc : KvType
  salsa_trt_spdk_array_mc : KvType
  salsa_trt_aio_mc : KvType
  salsa_trt_uring_mc : KvType
  last : KvType

-- the parameters of the store; `size` 0 stands for the size of the file
pub record KvConf : Type 0 where
  pub type : KvType
  pub size : ℕ
  pub segment_size : ℕ
  pub grain_size : ℕ
  pub overprovision : ℕ

unfoldable pub sanitize_grain_size : ℕ → ℕ
sanitize_grain_size grain_size = round_down_pow2 (max 1 grain_size)

unfoldable pub step_size : (page_size grain_size : ℕ) → ℕ
step_size page_size grain_size = if ltb grain_size page_size then page_size / grain_size else 1

unfoldable pub sanitize_segment_size : (page_size grain_size segment_size : ℕ) → ℕ
unfolding step_size
sanitize_segment_size page_size grain_size segment_size =
    max 1 (align_down segment_size (step_size page_size grain_size))

-- the types whose accesses go by DMA
abbrev pub is_direct : KvType → Bool
is_direct salsa_o_direct = true
is_direct salsa_spdk = true
is_direct salsa_trt_spdk = true
is_direct salsa_trt_aio = true
is_direct salsa_trt_spdk_array = true
is_direct salsa_o_direct_mc = true
is_direct salsa_trt_spdk_array_mc = true
is_direct type = false

unfoldable pub validate_and_sanitize_parameters : ℕ → KvConf → KvConf
unfolding sanitize_grain_size sanitize_segment_size
validate_and_sanitize_parameters page_size c =
    let grain_size =
      sanitize_grain_size (if is_direct c.type then align_up c.grain_size 512 else c.grain_size) in
    record c {
      grain_size = grain_size;
      segment_size = sanitize_segment_size page_size grain_size c.segment_size;
      overprovision = max 5 (min 600 c.overprovision);
      size = min (grain_size * (unused_pba_entry - 1) % 2 ^ 64) c.size;
    }

-- The loop of `init_local` over the smaller sizes of segments: the one with the least waste so far,
-- with its waste. Each round takes a smaller size; the fuel bounds the rounds.
pub record Choice : Type 0 where
  pub new_seg_size : ℕ
  pub min_waste : ℕ

unfoldable pub waste_loop :
    (fuel page_size grain_size net_size new_seg_min ns : ℕ) → Choice → Option Choice
waste_loop zero page_size grain_size net_size new_seg_min ns c = none
waste_loop (suc fuel) page_size grain_size net_size new_seg_min ns c =
    let seg_sizeb = ns * grain_size % 2 ^ 64 in
    let waste = sub64 net_size (align_down net_size seg_sizeb) in
    let better : Choice =
      if ltb waste c.min_waste then record { new_seg_size = ns; min_waste = waste } else c in
    let rest =
      waste_loop fuel page_size grain_size net_size new_seg_min
        (sanitize_segment_size page_size grain_size (sub64 ns 1)) better in
    if ltb new_seg_min ns then rest else some c

-- The next size that `init_local` tries when `check_dev_size` has failed; the outer `none` is no fuel,
-- the inner one the error for want of a size.
unfoldable pub next_segment_size : (page_size grain_size size segment_size : ℕ) → Option (Option ℕ)
next_segment_size page_size grain_size size segment_size =
    let first = sub64 segment_size 1 in
    let ns = sanitize_segment_size page_size grain_size first in
    if first == 0
    then some none
    else elim (waste_loop (suc ns) page_size grain_size (sub64 size grain_size) (segment_size / 2)
        ns (record { new_seg_size = ns; min_waste = 2 ^ 64 - 1 })) [
          | none ↦ none
          | some c ↦ some (some c.new_seg_size)
        ]
