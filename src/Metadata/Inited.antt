-- ===== src/Metadata/Inited.antt =====
-- src/uDepot/lsa/metadata.cc: what `init` sets up, and the later operations keep.
use u_depot.Base.{
  ℕ, ◌*◌, ◌/◌, ◌%◌, ◌^◌, ◌<◌, ◌≡◌, refl, ◌∙◌, subst, inl, inr, Bool-cases, some, length, length-set,
  length-replicate, ◌==◌, Option-cases, arith,
}
use mathlib.Core.Option.{some-injective, none-ne-some}
use u_depot.Store.{Device}
use u_depot.Metadata.{
  Crc, DevMd, SalsaMd, SalsaType, init, seg_iovec, persist_seg_md, restore_seg_ts,
}

abbrev pub segment_bytes : DevMd → ℕ
segment_bytes md = md.segment_size * md.grain_size % 2 ^ 64

-- The template of the segments' metadata agrees with the device's, and every segment has a
-- timestamp.
pub record IsInited (m : SalsaMd) : Type 0 where
  pub own_seed : m.seed ≡ m.dev_md.seed
  pub own_grain_size : m.grain_size ≡ m.dev_md.grain_size
  pub same_seed : m.seg_md.seed ≡ m.dev_md.seed
  pub same_segment_size : m.seg_md.segment_size ≡ m.dev_md.segment_size
  pub same_grain_size : m.seg_md.grain_size ≡ m.dev_md.grain_size
  pub has_segments : 0 < segment_bytes m.dev_md
  pub stamped : length m.seg_ts ≡ m.dev_md.physical_size / segment_bytes m.dev_md

-- The metadata in use: initialised, with segments persisted, with or without an error of the
-- device, and with timestamps restored.
pub data InUse : SalsaMd → Type 0 where
  started : (dev_md : DevMd) (m : SalsaMd) {n : SalsaMd} → init dev_md m ≡ some n → InUse n
  persisted :
      {m : SalsaMd} (crc32 : Crc) (stack : ℕ → ℕ) (grain ts : ℕ) (type : SalsaType) (dev : Device)
      → InUse m
      → InUse (persist_seg_md crc32 stack grain ts type m dev).md
  restored : {m : SalsaMd} (seg_idx ts : ℕ) → InUse m → InUse (restore_seg_ts seg_idx ts m)

restore_seg_ts-IsInited :
    (m : SalsaMd) (seg_idx ts : ℕ) → IsInited m → IsInited (restore_seg_ts seg_idx ts m)
unfolding restore_seg_ts
restore_seg_ts-IsInited m seg_idx ts i = record {
  own_seed = i.own_seed;
  own_grain_size = i.own_grain_size;
  same_seed = i.same_seed;
  same_segment_size = i.same_segment_size;
  same_grain_size = i.same_grain_size;
  has_segments = i.has_segments;
  stamped = length-set m.seg_ts seg_idx ts ∙ i.stamped;
}

persist_seg_md-IsInited :
    (m : SalsaMd) (crc32 : Crc) (stack : ℕ → ℕ) (grain ts : ℕ) (type : SalsaType) (dev : Device)
    → IsInited m
    → IsInited (persist_seg_md crc32 stack grain ts type m dev).md
unfolding persist_seg_md restore_seg_ts
persist_seg_md-IsInited m crc32 stack grain ts type dev i =
    let written = length (seg_iovec crc32 stack ts type m) in
    elim (Option-cases (dev.write_fault (grain * m.grain_size % 2 ^ 64) written)) [
      | inr (rc, bad) ↦ rw (persist_seg_md, bad) i
      | inl well ↦
          rw (persist_seg_md, well) (restore_seg_ts-IsInited m (grain / m.seg_md.segment_size) ts i)
    ]

init-IsInited : (dev_md : DevMd) (m n : SalsaMd) → init dev_md m ≡ some n → IsInited n
unfolding init
init-IsInited dev_md m n e = elim (Bool-cases (segment_bytes dev_md == 0)) [
  | inl zero_size ↦ absurd (none-ne-some n (rw zero_size at e))
  | inr some_size ↦
      subst (λ k. IsInited k) (some-injective _ n (rw some_size at e))
        (record {
          own_seed = refl;
          own_grain_size = refl;
          same_seed = refl;
          same_segment_size = refl;
          same_grain_size = refl;
          has_segments = ground (arith, some_size);
          stamped = length-replicate {A = ℕ} _ 0;
        })
]

-- Metadata that `init` has set up and that has been through any calls of `persist_seg_md` and
-- `restore_seg_ts` has the seed and the sizes of the device's metadata, in its own fields and
-- in the template of the segments, and one timestamp for each segment of the device.
pub InUse-IsInited : {m : SalsaMd} → InUse m → IsInited m
InUse-IsInited (started dev_md m e) = init-IsInited dev_md m _ e
InUse-IsInited (persisted {m} crc32 stack grain ts type dev u) =
    persist_seg_md-IsInited m crc32 stack grain ts type dev (InUse-IsInited u)
InUse-IsInited (restored {m} seg_idx ts u) = restore_seg_ts-IsInited m seg_idx ts (InUse-IsInited u)
