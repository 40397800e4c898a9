-- ===== src/Recovery/BothWays.antt =====
-- src/uDepot/lsa/udepot-directory-map.cc: `restore` and `prep_crash_recovery` find the same segments.
use u_depot.Base.{ℕ, ◌+◌, ◌≤◌, ◌≡◌, true, some, List, [], ◌∷◌}
use u_depot.Store.{Device, got}
use u_depot.Metadata.{Crc, SalsaMd, SalsaType, seg_md_of, read_seg_md, validate_seg_bytes}
use u_depot.Growth.{Geometry}
use u_depot.Recovery.{Prepared, SegsRestored, md_grain, prep_segment, restore_segment}

module _ (crc32 : Crc) (g : Geometry) (grain_to_seg_idx : ℕ → ℕ) (type : SalsaType)
    (dev : Device) where
  -- When a segment is valid, its timestamp is not 0.
  abbrev IsStamped : SalsaMd → ℕ → Type 0
  IsStamped md s =
      (bytes : List ℕ)
      → read_seg_md md dev (md_grain g s) ≡ got bytes
      → validate_seg_bytes crc32 md bytes type ≡ true
      → 1 ≤ (seg_md_of bytes).timestamp

  abbrev pub AreStamped : SalsaMd → List ℕ → Type 0
  AreStamped md [] = Unit
  AreStamped md (s ∷ segs) = IsStamped md s × AreStamped md segs

  -- the state of `restore` that has found what `p` says
  abbrev seen : Prepared → ℕ → SegsRestored
  seen p most = record { md = p.md; seg_valid_nr = p.restored_seg_nr; max_seg_alloc_nr = most }

  abbrev prep : ℕ → Prepared → Prepared
  prep s p = prep_segment crc32 g grain_to_seg_idx type dev s p

  -- What a round of both loops makes of what was found before.
  record Stepped (s : ℕ) (p : Prepared) (most : ℕ) : Type 0 where
    most' : ℕ
    stepped :
        restore_segment crc32 g grain_to_seg_idx type dev s (seen p most)
        ≡ some (seen (prep s p) most')
    counted : (prep s p).restored_seg_nr ≤ p.restored_seg_nr + 1
    stamped : (segs : List ℕ) → AreStamped p.md segs → AreStamped (prep s p).md segs
