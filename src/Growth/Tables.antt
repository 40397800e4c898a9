-- ===== src/Growth/Tables.antt =====
-- src/uDepot/lsa/udepot-directory-map.cc: the tables that `grow` makes, through its steps.
use u_depot.Base.{
  ℕ, zero, suc, ◌≡◌, ◌⊎◌, inl, inr, refl, sym, ap, Bool-cases, ◌||◌, none, some, sub64,
  Option-cases, List, [], ◌∷◌, length,
}
use mathlib.Core.Option.{none-ne-some}
use u_depot.Map.{Map}
use u_depot.Map.Restore.{Restored, ready, diverges, init}
use u_depot.Store.{enomem}
use u_depot.Store.Write.{SalsaCall}
use u_depot.Metadata.{Crc, SalsaMd}
use u_depot.Growth.{
  DirMapEntry, Geometry, Answer, map_huge, new_entry, allocate_tables, init_tables, md_ovrh,
  set_maps, write_headers,
}
use u_depot.Growth.Regions.{AreOpen}

some-ne-none : {A : Type 0} (a : A) → some a ≡ none → ⊥
some-ne-none a e = none-ne-some a (sym e)

pub length-allocate_tables :
    (g : Geometry) (answers : ℕ → Answer) (i n : ℕ) (calls : List SalsaCall)
    → (allocate_tables g answers i n calls).error ≡ none
    → length (allocate_tables g answers i n calls).entries ≡ n
unfolding allocate_tables
length-allocate_tables g answers i zero calls e = refl
length-allocate_tables g answers i (suc n) calls e = elim (Option-cases (answers i).alloc_error) [
  | inr (rc, bad) ↦ absurd (some-ne-none rc (rw (allocate_tables, bad) at e))
  | inl well ↦ elim (Bool-cases (map_huge g (answers i) || (answers i).maps)) [
    | inr no_map ↦ absurd (some-ne-none enomem (rw (allocate_tables, well, no_map) at e))
    | inl mapped ↦
        rw (allocate_tables, well, mapped)
          (ap suc (
            length-allocate_tables g answers (suc i) n _ (rw (allocate_tables, well, mapped) at e)))
  ]
]

pub length-set_maps :
    (new : List DirMapEntry) (maps : List Map) → length (set_maps new maps) ≡ length new
unfolding set_maps
length-set_maps [] maps = refl
length-set_maps (dme ∷ rest) [] = refl
length-set_maps (dme ∷ rest) (m ∷ maps) = ap suc (length-set_maps rest maps)

pub length-write_headers :
    (crc32 : Crc) (md : SalsaMd) (answers : ℕ → Answer) (size i : ℕ) (new : List DirMapEntry)
    → length (write_headers crc32 md answers size i new) ≡ length new
unfolding write_headers
length-write_headers crc32 md answers size i [] = refl
length-write_headers crc32 md answers size i (dme ∷ rest) =
    ap suc (length-write_headers crc32 md answers size (suc i) rest)

-- The new tables, as many as there were answers, are open through all the steps.
pub allocate_tables-AreOpen :
    (g : Geometry) (answers : ℕ → Answer) (i n : ℕ) (calls : List SalsaCall)
    → AreOpen (allocate_tables g answers i n calls).entries
unfolding allocate_tables new_entry
allocate_tables-AreOpen g answers i zero calls = tt
allocate_tables-AreOpen g answers i (suc n) calls = elim (Option-cases (answers i).alloc_error) [
  | inr (rc, bad) ↦ rw (allocate_tables, bad) tt
  | inl well ↦ elim (Bool-cases (map_huge g (answers i) || (answers i).maps)) [
    | inr no_map ↦ rw (allocate_tables, well, no_map) tt
    | inl mapped ↦
        rw (allocate_tables, well, mapped) (refl, allocate_tables-AreOpen g answers (suc i) n _)
  ]
]

module _ (lock_nr : ℕ) (answers : ℕ → Answer) where
  abbrev inited : ℕ → DirMapEntry → Restored
  inited i dme = init dme.map lock_nr (sub64 dme.size_b md_ovrh) (some (answers i).words)

  Restored-cases :
      (r : Restored) → ((m : Map) × (r ≡ ready m)) ⊎ ((r ≡ Restored.einval) ⊎ (r ≡ diverges))
  Restored-cases (ready m) = inl (m, refl)
  Restored-cases Restored.einval = inr (inl refl)
  Restored-cases diverges = inr (inr refl)

  pub init_tables-AreOpen :
      (i : ℕ) (new : List DirMapEntry) → AreOpen new → AreOpen (init_tables lock_nr answers i new).1
  unfolding init_tables
  init_tables-AreOpen i [] o = tt
  init_tables-AreOpen i (dme ∷ rest) o = elim (Restored-cases (inited i dme)) [
    | inl (m, e) ↦ rw (init_tables, e) (o.0, init_tables-AreOpen (suc i) rest o.1)
    | inr (inl e) ↦ rw (init_tables, e) o
    | inr (inr e) ↦ rw (init_tables, e) o
  ]

  pub length-init_tables :
      (i : ℕ) (new : List DirMapEntry) → length (init_tables lock_nr answers i new).1 ≡ length new
  unfolding init_tables
  length-init_tables i [] = refl
  length-init_tables i (dme ∷ rest) = elim (Restored-cases (inited i dme)) [
    | inl (m, e) ↦ rw (init_tables, e) (ap suc (length-init_tables (suc i) rest))
    | inr (inl e) ↦ rw (init_tables, e) refl
    | inr (inr e) ↦ rw (init_tables, e) refl
  ]

pub set_maps-AreOpen :
    (new : List DirMapEntry) (maps : List Map) → AreOpen new → AreOpen (set_maps new maps)
unfolding set_maps
set_maps-AreOpen [] maps o = tt
set_maps-AreOpen (dme ∷ rest) [] o = o
set_maps-AreOpen (dme ∷ rest) (m ∷ maps) o = (o.0, set_maps-AreOpen rest maps o.1)

pub write_headers-AreOpen :
    (crc32 : Crc) (md : SalsaMd) (answers : ℕ → Answer) (size i : ℕ) (new : List DirMapEntry)
    → AreOpen new
    → AreOpen (write_headers crc32 md answers size i new)
unfolding write_headers
write_headers-AreOpen crc32 md answers size i [] o = tt
write_headers-AreOpen crc32 md answers size i (dme ∷ rest) o =
    (o.0, write_headers-AreOpen crc32 md answers size (suc i) rest o.1)
