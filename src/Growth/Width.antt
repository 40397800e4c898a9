-- ===== src/Growth/Width.antt =====
-- src/uDepot/lsa/udepot-directory-map.cc: through any growths, the directory has a power of two of
-- tables, and the width of its index is the number of growths before the last.
use native.Mathlib.Nat.{pow-suc, one-le-pow, pow-le-pow_right}
use native.Mathlib.Decide.{dec_lt}
use u_depot.Base.{
  ℕ, zero, suc, ◌-◌, ◌*◌, ◌%◌, ◌^◌, max, ◌≤◌, ◌<◌, ◌≡◌, inl, inr, refl, sym, ap, subst, ◌∙◌, false,
  none, List, [], ◌∷◌, length, arith,
}
use u_depot.Directory.{grown_size, dir_idx_bits}
use u_depot.Directory.Choice.{dir_idx_bits_lem}
use u_depot.Metadata.{Crc, SalsaMd}
use u_depot.Growth.{DirMapEntry, DirectoryMap, Geometry, Answers, maps_of, grow}
use u_depot.Growth.Regions.{AreOpen}
use u_depot.Growth.Outcome.{grow-Outcome}

abbrev pub new_directory_map : DirectoryMap
new_directory_map = record {
  directory = [];
  map_entry_nr_bits = 0;
  grow_nr = 0;
  write_locked = false;
  grow_locked = false;
  calls = [];
}

-- Growths from the empty directory, each with any answers but an error of `munmap` or of the
-- `mprotect` that opens the old regions again, up to 2 ^ 31 tables.
pub data Grown (crc32 : Crc) (md : SalsaMd) : DirectoryMap → Type 0 where
  start : Grown crc32 md new_directory_map
  step :
      {d : DirectoryMap} (g : Geometry) (ans : Answers)
      → Grown crc32 md d
      → ((j : ℕ) → ans.unmap_error j ≡ none)
      → ((j : ℕ) → ans.reset_error j ≡ none)
      → d.grow_nr < 32
      → Grown crc32 md (grow crc32 md g ans d).1

abbrev pub tables_nr : ℕ → ℕ
tables_nr zero = 0
tables_nr (suc k) = 2 ^ k

pub record IsWide (d : DirectoryMap) : Type 0 where
  pub sized : length d.directory ≡ tables_nr d.grow_nr
  pub few : d.grow_nr ≤ 32
  pub opened : AreOpen d.directory
  pub unlocked : d.write_locked ≡ false
  pub free : d.grow_locked ≡ false

length-maps_of : (dir : List DirMapEntry) → length (maps_of dir) ≡ length dir
length-maps_of [] = refl
length-maps_of (dme ∷ rest) = ap suc (length-maps_of rest)

power-small : (k : ℕ) → k < 32 → 2 ^ k < 2 ^ 32
power-small k lt = omega (
  arith,
  pow-suc 2 k,
  pow-le-pow_right {n = 2} (omega arith) {i = suc k} {j = 32} (omega (arith, lt)),
)

doubled : (nr : ℕ) → nr < 32 → max 1 (2 * tables_nr nr) % 2 ^ 32 ≡ tables_nr (suc nr)
doubled zero lt = refl
doubled (suc k) lt =
    omega (arith, pow-suc 2 k, power-small (suc k) lt, one-le-pow k 2 (omega arith))

grown_size-tables_nr :
    (dir : List DirMapEntry) (nr : ℕ)
    → length dir ≡ tables_nr nr
    → nr < 32
    → grown_size (maps_of dir) ≡ tables_nr (suc nr)
unfolding grown_size
grown_size-tables_nr dir nr sized lt =
    ap (λ n. max 1 (2 * n) % 2 ^ 32) (length-maps_of dir ∙ sized) ∙ doubled nr lt

-- The number of tables is what the number of growths says; the regions are open and the locks free.
pub Grown-IsWide : {crc32 : Crc} {md : SalsaMd} {d : DirectoryMap} → Grown crc32 md d → IsWide d
Grown-IsWide start = record {
  sized = refl;
  few = omega arith;
  opened = tt;
  unlocked = refl;
  free = refl;
}
Grown-IsWide {crc32} {md} (step {d} g ans r unmaps resets lt) =
    let w = Grown-IsWide r in
    elim (grow-Outcome crc32 md g ans unmaps resets d w.opened w.unlocked w.free) [
      | inl k ↦ record {
        sized = ap length k.same ∙ w.sized ∙ ap tables_nr (sym k.counted);
        few = omega (arith, k.counted, w.few);
        opened = subst AreOpen (sym k.same) w.opened;
        unlocked = k.unlocked;
        free = k.free;
      }
      | inr p ↦
          let next : (grow crc32 md g ans d).1.grow_nr ≡ suc d.grow_nr =
            omega (arith, p.counted, lt) in
          record {
            sized =
                p.sized
                ∙ grown_size-tables_nr d.directory d.grow_nr w.sized lt
                ∙ ap tables_nr (sym next);
            few = omega (arith, next, lt);
            opened = p.opened;
            unlocked = p.unlocked;
            free = p.free;
          }
    ]

tables_nr-pos : (nr : ℕ) → 0 < nr → tables_nr nr ≡ 2 ^ (nr - 1)
tables_nr-pos zero pos = absurd (omega arith)
tables_nr-pos (suc k) pos = let e : suc k - 1 ≡ k = omega arith in ap (λ (j : ℕ). 2 ^ j) (sym e)

power_unique : (j k n : ℕ) → 2 ^ j ≤ n → n < 2 ^ suc j → n ≡ 2 ^ k → j ≡ k
power_unique j k n le lt e = elim (dec_lt j k) [
  | yes below ↦
      absurd
        (omega (arith, lt, e, pow-le-pow_right {n = 2} (omega arith) {i = suc j} {j = k} below))
  | no not_below ↦ elim (dec_lt k j) [
    | yes above ↦ absurd (
        omega (
          arith,
          le,
          e,
          pow-suc 2 k,
          one-le-pow k 2 (omega arith),
          pow-le-pow_right {n = 2} (omega arith) {i = suc k} {j = j} above,
        ))
    | no not_above ↦ omega (arith, not_below, not_above)
  ]
]

-- After any growths from the empty directory, failed ones among them, with any answers but an
-- error of `munmap` or of the `mprotect` that opens the old regions again, of which at most 32
-- have succeeded, when one has succeeded the number of tables is two to the power of the number
-- of growths less one, and the width of the index that is derived from the directory is that
-- exponent.
pub dir_idx_bits-Grown :
    {crc32 : Crc} {md : SalsaMd} {d : DirectoryMap}
    → Grown crc32 md d
    → 0 < d.grow_nr
    → (length d.directory ≡ 2 ^ (d.grow_nr - 1))
      × (dir_idx_bits (maps_of d.directory) ≡ d.grow_nr - 1)
dir_idx_bits-Grown {d = d} r pos =
    let w = Grown-IsWide r in
    let sized : length d.directory ≡ 2 ^ (d.grow_nr - 1) = w.sized ∙ tables_nr-pos d.grow_nr pos in
    let n : length (maps_of d.directory) ≡ 2 ^ (d.grow_nr - 1) =
      length-maps_of d.directory ∙ sized in
    let small = power-small (d.grow_nr - 1) (omega (arith, w.few, pos)) in
    let some_table = one-le-pow (d.grow_nr - 1) 2 (omega arith) in
    let bits =
      dir_idx_bits_lem (maps_of d.directory) (omega (arith, n, some_table))
        (omega (arith, n, small)) in
    (sized, power_unique _ (d.grow_nr - 1) _ bits.0 bits.1 n)
