-- ===== src/Recovery/Timestamps.antt =====
-- src/uDepot/lsa/udepot-directory-map.cc: the timestamps of the segments after a crash are those that
-- were persisted.
use u_depot.Base.{
  ℕ, ◌^◌, ◌<◌, ◌≡◌, ◌≢◌, refl, sym, ap, subst, ◌∙◌, true, Bool-cases, List, [], ◌∷◌, ◌++◌, length,
  get_or-set_self, get_or-set_ne, length-set, arith, inl, inr,
}
use u_depot.Store.{Device, got}
use u_depot.Metadata.{
  Crc, SegMd, SalsaMd, Persisted, SalsaType, seg_md_of, seg_md_bytes, signed_seg_md, read_seg_md,
  validate_seg_bytes, validate_seg_md, persist_seg_md, restore_seg_ts, get_seg_ts,
}
use u_depot.Metadata.Layout.{IsSegMd, seg_md_of-seg_md_bytes}
use u_depot.Metadata.Inited.{IsInited}
use u_depot.Metadata.SegTrip.{
  persist_seg_md-done, read_seg_md-written, validate_seg_bytes-signed, ==-same, IsReachable,
  signed_seg_md-IsSegMd,
}
use u_depot.Growth.{Geometry}
use u_depot.Recovery.{Prepared, md_grain, prep_valid, prep_segment, prep_loop, prep_crash_recovery}
use u_depot.Recovery.Segments.{prep_segment-valid, prep_segment-invalid, valid-read}

-- No segment of the list has the index.
abbrev pub Apart : (ℕ → ℕ) → ℕ → List ℕ → Type 0
Apart grain_to_seg_idx idx [] = Unit
Apart grain_to_seg_idx idx (s ∷ segs) = (grain_to_seg_idx s ≢ idx) × Apart grain_to_seg_idx idx segs

module _ (crc32 : Crc) (g : Geometry) (grain_to_seg_idx : ℕ → ℕ) (type : SalsaType)
    (dev : Device) where
  abbrev looped : List ℕ → Prepared → Prepared
  looped segs p = prep_loop crc32 g grain_to_seg_idx type dev segs p

  -- What a loop over the segments keeps of the metadata: all but the timestamps, and these of
  -- the segments that are not passed.
  record Keeps (idx : ℕ) (segs : List ℕ) (m n : SalsaMd) : Type 0 where
    reads : (grain : ℕ) → read_seg_md n dev grain ≡ read_seg_md m dev grain
    judges :
        (bytes : List ℕ)
        → validate_seg_bytes crc32 n bytes type ≡ validate_seg_bytes crc32 m bytes type
    stamps : length n.seg_ts ≡ length m.seg_ts
    apart : Apart grain_to_seg_idx idx segs → get_seg_ts n idx ≡ get_seg_ts m idx

  restored-Keeps :
      (idx s ts : ℕ) (segs : List ℕ) (m n : SalsaMd)
      → Keeps idx segs (restore_seg_ts (grain_to_seg_idx s) ts m) n
      → Keeps idx (s ∷ segs) m n
  unfolding restore_seg_ts read_seg_md validate_seg_bytes get_seg_ts
  restored-Keeps idx s ts segs m n k = record {
    reads = k.reads;
    judges = k.judges;
    stamps = k.stamps ∙ length-set m.seg_ts (grain_to_seg_idx s) ts;
    apart = λ a. k.apart a.1 ∙ get_or-set_ne m.seg_ts (grain_to_seg_idx s) idx ts 0 a.0;
  }

  prep_loop-Keeps :
      (idx : ℕ) (segs : List ℕ) (p : Prepared) → Keeps idx segs p.md (looped segs p).md
  unfolding prep_loop
  prep_loop-Keeps idx [] p = record {
    reads = λ grain. refl;
    judges = λ bytes. refl;
    stamps = refl;
    apart = λ a. refl;
  }
  prep_loop-Keeps idx (s ∷ segs) p =
      elim (Bool-cases (validate_seg_md crc32 p.md dev (md_grain g s) type)) [
        | inr bad ↦
            let k = prep_loop-Keeps idx segs p in
            subst (λ r. Keeps idx (s ∷ segs) p.md (looped segs r).md)
              (sym (prep_segment-invalid crc32 g grain_to_seg_idx type dev s p bad))
              (record {
                reads = k.reads;
                judges = k.judges;
                stamps = k.stamps;
                apart = λ a. k.apart a.1;
              })
        | inl ok ↦
            let (bytes, read, good) = valid-read crc32 g grain_to_seg_idx type dev s p.md ok in
            let q = prep_valid g grain_to_seg_idx s bytes p in
            subst (λ r. Keeps idx (s ∷ segs) p.md (looped segs r).md)
              (sym (prep_segment-valid crc32 g grain_to_seg_idx type dev s p bytes read good))
              (restored-Keeps idx s (seg_md_of bytes).timestamp segs p.md (looped segs q).md
                (prep_loop-Keeps idx segs q))
      ]

  prep_loop-append :
      (before after : List ℕ) (p : Prepared)
      → looped (before ++ after) p ≡ looped after (looped before p)
  unfolding prep_loop
  prep_loop-append [] after p = refl
  prep_loop-append (s ∷ before) after p =
      prep_loop-append before after (prep_segment crc32 g grain_to_seg_idx type dev s p)

  -- A valid segment that is the last of its index gives its timestamp.
  pub prep_loop-get_seg_ts :
      (before after : List ℕ) (s : ℕ) (p : Prepared) (bytes : List ℕ)
      → Apart grain_to_seg_idx (grain_to_seg_idx s) after
      → grain_to_seg_idx s < length p.md.seg_ts
      → read_seg_md p.md dev (md_grain g s) ≡ got bytes
      → validate_seg_bytes crc32 p.md bytes type ≡ true
      → get_seg_ts (looped (before ++ (s ∷ after)) p).md (grain_to_seg_idx s)
        ≡ (seg_md_of bytes).timestamp
  unfolding prep_loop get_seg_ts restore_seg_ts
  prep_loop-get_seg_ts before after s p bytes a real read ok =
      let b = looped before p in
      let k = prep_loop-Keeps (grain_to_seg_idx s) before p in
      let q = prep_valid g grain_to_seg_idx s bytes b in
      let step =
        prep_segment-valid crc32 g grain_to_seg_idx type dev s b bytes
          (k.reads (md_grain g s) ∙ read) (k.judges bytes ∙ ok) in
      ap (λ (r : Prepared). get_seg_ts r.md (grain_to_seg_idx s))
        (prep_loop-append before (s ∷ after) p)
      ∙ ap (λ r. get_seg_ts (looped after r).md (grain_to_seg_idx s)) step
      ∙ (prep_loop-Keeps (grain_to_seg_idx s) after q).apart a
      ∙ get_or-set_self b.md.seg_ts (grain_to_seg_idx s) (seg_md_of bytes).timestamp 0
          (omega (arith, real, k.stamps))

-- When initialised metadata, whose fields fit their types, persists a 64-bit timestamp for a
-- segment, on a device that holds the segment's metadata and makes no error there, then after a
-- restart with the same configuration and any timestamps `prep_crash_recovery` finds that
-- timestamp for the segment, wherever the segment stands in the iteration, if its index has a
-- timestamp and no later segment has the index.
pub prep_crash_recovery-persist_seg_md :
    (crc32 : Crc) (g : Geometry) (grain_to_seg_idx stack : ℕ → ℕ) (type : SalsaType) (m : SalsaMd)
    (dev : Device) (before after seg_ts : List ℕ) (s ts : ℕ)
    → IsInited m
    → IsSegMd m.seg_md
    → ts < 2 ^ 64
    → IsReachable m dev (md_grain g s)
    → grain_to_seg_idx s < length seg_ts
    → Apart grain_to_seg_idx (grain_to_seg_idx s) after
    → let written = (persist_seg_md crc32 stack (md_grain g s) ts type m dev).device in
      let restarted : SalsaMd = record m { seg_ts = seg_ts } in
      let r =
        prep_crash_recovery crc32 g grain_to_seg_idx type written
          (before ++ (s ∷ after))
          restarted in
      get_seg_ts r.1.md (grain_to_seg_idx s) ≡ ts
unfolding prep_crash_recovery read_seg_md validate_seg_bytes signed_seg_md
prep_crash_recovery-persist_seg_md crc32 g grain_to_seg_idx stack type m dev before after seg_ts s
      ts i fits small ok known apart =
    let grain = md_grain g s in
    let written = (persist_seg_md crc32 stack grain ts type m dev).device in
    let bytes = seg_md_bytes (signed_seg_md crc32 m ts type) in
    let restarted : SalsaMd = record m { seg_ts = seg_ts } in
    let read : read_seg_md m written grain ≡ got bytes =
      ap (λ (r : Persisted). read_seg_md m r.device grain)
        (persist_seg_md-done crc32 stack m dev grain ts type ok)
      ∙ read_seg_md-written crc32 stack m dev grain ts type ok in
    let valid : validate_seg_bytes crc32 m bytes type ≡ true =
      validate_seg_bytes-signed crc32 m ts type type i fits small ∙ ==-same refl in
    prep_loop-get_seg_ts crc32 g grain_to_seg_idx type written before after s
      (record { md = restarted; ranges = []; restored_seg_nr = 0 }) bytes apart known read valid
    ∙ ap (λ (md : SegMd). md.timestamp)
        (seg_md_of-seg_md_bytes _ (signed_seg_md-IsSegMd crc32 m ts type fits small))
