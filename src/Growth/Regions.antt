-- ===== src/Growth/Regions.antt =====
-- src/uDepot/lsa/udepot-directory-map.cc: the regions of a directory, shut and opened again by `grow`.
use u_depot.Base.{
  ℕ, suc, ◌≡◌, inl, inr, refl, sym, ap, ap₂, ◌∙◌, Bool, true, false, Option, none, Option-cases,
  List, [], ◌∷◌,
}
use u_depot.Store.Write.{SalsaCall}
use u_depot.Growth.{
  Prot, read_write, read_only, invalid, unmapped, DirMapEntry, Geometry, protect_all, reopen,
  reset_all, invalidate_table, unmap_tables,
}

abbrev pub is_mapped : Prot → Bool
is_mapped unmapped = false
is_mapped prot = true

-- Every region can be read and written.
abbrev pub AreOpen : List DirMapEntry → Type 0
AreOpen [] = Unit
AreOpen (dme ∷ rest) = (dme.prot ≡ read_write) × AreOpen rest

-- The regions are mapped, and would be the old ones if they were opened.
abbrev pub ShutFrom : List DirMapEntry → List DirMapEntry → Type 0
ShutFrom [] [] = Unit
ShutFrom [] (dme ∷ rest) = ⊥
ShutFrom (old ∷ olds) [] = ⊥
ShutFrom (old ∷ olds) (dme ∷ rest) =
    (is_mapped dme.prot ≡ true) × (record dme { prot = read_write } ≡ old) × ShutFrom olds rest

pub open-ShutFrom : (old : List DirMapEntry) → AreOpen old → ShutFrom old old
open-ShutFrom [] o = tt
open-ShutFrom (dme ∷ rest) o =
    (ap is_mapped o.0, (λ i. record dme { prot = sym o.0 i }), open-ShutFrom rest o.1)

pub protect_all-ShutFrom :
    (errors : ℕ → Option ℕ) (prot : Prot) (i : ℕ) (old cur : List DirMapEntry)
    → is_mapped prot ≡ true
    → ShutFrom old cur
    → ShutFrom old (protect_all errors prot i cur).1
unfolding protect_all
protect_all-ShutFrom errors prot i [] [] m s = s
protect_all-ShutFrom errors prot i [] (dme ∷ rest) m s = absurd s
protect_all-ShutFrom errors prot i (x ∷ old) [] m s = absurd s
protect_all-ShutFrom errors prot i (x ∷ old) (dme ∷ rest) m s = elim (Option-cases (errors i)) [
  | inr (e, bad) ↦ rw (protect_all, bad) s
  | inl well ↦
      rw (protect_all, well) (m, s.1, protect_all-ShutFrom errors prot (suc i) old rest m s.2)
]

reopen-mapped : (prot : Prot) → is_mapped prot ≡ true → reopen prot ≡ read_write
unfolding reopen
reopen-mapped read_write m = refl
reopen-mapped read_only m = refl
reopen-mapped invalid m = refl
reopen-mapped unmapped m = cc

pub reset_all-ShutFrom :
    (errors : ℕ → Option ℕ) (i : ℕ) (old cur : List DirMapEntry)
    → ((j : ℕ) → errors j ≡ none)
    → ShutFrom old cur
    → reset_all errors i cur ≡ old
unfolding reset_all
reset_all-ShutFrom errors i [] [] well s = refl
reset_all-ShutFrom errors i [] (dme ∷ rest) well s = absurd s
reset_all-ShutFrom errors i (x ∷ old) [] well s = absurd s
reset_all-ShutFrom errors i (x ∷ old) (dme ∷ rest) well s =
    rw (reset_all, well i)
      (ap₂ (λ h t. h ∷ t) ((λ k. record dme { prot = reopen-mapped dme.prot s.0 k }) ∙ s.1)
        (reset_all-ShutFrom errors (suc i) old rest well s.2))

pub unmap_tables-none :
    (g : Geometry) (errors : ℕ → Option ℕ) (i : ℕ) (cur : List DirMapEntry) (calls : List SalsaCall)
    → ((j : ℕ) → errors j ≡ none)
    → (unmap_tables g errors i cur calls).error ≡ none
unfolding unmap_tables
unmap_tables-none g errors i [] calls well = refl
unmap_tables-none g errors i (dme ∷ rest) calls well =
    rw (unmap_tables, well i)
      (unmap_tables-none g errors (suc i) rest (invalidate_table g dme ∷ calls) well)
