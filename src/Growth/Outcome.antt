-- ===== src/Growth/Outcome.antt =====
-- src/uDepot/lsa/udepot-directory-map.cc: `grow` publishes a directory of twice the size, or leaves the
-- old one as it was.
use u_depot.Base.{
  ℕ, ◌+◌, ◌%◌, ◌^◌, ◌≡◌, ◌⊎◌, inl, inr, refl, sym, ◌∙◌, Bool, true, false, not, none, if◌then◌else◌,
  subst, max, ◌/◌, Option-cases, List, length,
}
use u_depot.Map.{max_lock_nr}
use u_depot.Directory.{grown_size, copy_tables}
use u_depot.Store.{Rc, done}
use u_depot.Metadata.{Crc, SalsaMd}
use u_depot.Growth.{
  read_only, invalid, DirMapEntry, DirectoryMap, Geometry, Answers, Stage, allocate_tables,
  init_tables, protect_all, maps_of, set_maps, fail1, fail3, publish, retire, replace_directory,
  build, grow,
}
use u_depot.Growth.Regions.{
  AreOpen, ShutFrom, open-ShutFrom, protect_all-ShutFrom, reset_all-ShutFrom, unmap_tables-none,
}
use u_depot.Growth.Tables.{
  length-allocate_tables, length-set_maps, length-write_headers, allocate_tables-AreOpen,
  init_tables-AreOpen, length-init_tables, set_maps-AreOpen, write_headers-AreOpen,
}

if_three :
    {A : Type 0} (P : A → Type 0) (a b : Bool) (x y z : A)
    → P x
    → P y
    → P z
    → P (if a then x else if not b then y else z)
if_three P true b x y z px py pz = px
if_three P false false x y z px py pz = py
if_three P false true x y z px py pz = pz

-- The old directory is in use again, or still.
pub record Kept (old : List DirMapEntry) (nr : ℕ) (r : Rc × DirectoryMap) : Type 0 where
  pub same : r.1.directory ≡ old
  pub counted : r.1.grow_nr ≡ nr
  pub unlocked : r.1.write_locked ≡ false
  pub free : r.1.grow_locked ≡ false

-- A directory of `size` open tables is in use, by one growth more.
pub record Replaced (size nr : ℕ) (r : Rc × DirectoryMap) : Type 0 where
  pub fine : r.0 ≡ done
  pub sized : length r.1.directory ≡ size
  pub opened : AreOpen r.1.directory
  pub counted : r.1.grow_nr ≡ (nr + 1) % 2 ^ 32
  pub unlocked : r.1.write_locked ≡ false
  pub free : r.1.grow_locked ≡ false

module _ (crc32 : Crc) (md : SalsaMd) (g : Geometry) (ans : Answers)
    (unmaps : (j : ℕ) → ans.unmap_error j ≡ none)
    (resets : (j : ℕ) → ans.reset_error j ≡ none) where
  abbrev Outcome : List DirMapEntry → ℕ → ℕ → Rc × DirectoryMap → Type 0
  Outcome old size nr r = Kept old nr r ⊎ Replaced size nr r

  fail3-Kept :
      (old cur new : List DirMapEntry) (rc : Rc) (d : DirectoryMap)
      → ShutFrom old cur
      → Kept old d.grow_nr (fail3 g ans cur new rc d)
  unfolding fail3 fail1
  fail3-Kept old cur new rc d s = record {
    same = reset_all-ShutFrom ans.reset_error 0 old cur resets s;
    counted = refl;
    unlocked = refl;
    free = refl;
  }

  retire-Outcome :
      (old cur new : List DirMapEntry) (d : DirectoryMap)
      → ShutFrom old cur
      → AreOpen new
      → Outcome old (length new) d.grow_nr (retire crc32 md g ans cur new d)
  unfolding retire publish
  retire-Outcome old cur new d s o =
      let p = protect_all ans.invalid_error invalid 0 cur in
      let s' = protect_all-ShutFrom ans.invalid_error invalid 0 old cur refl s in
      elim (Option-cases p.0) [
        | inr (rc, bad) ↦ inl (rw (retire, bad) (fail3-Kept old p.1 new rc d s'))
        | inl well ↦
            let done_with = unmap_tables-none g ans.unmap_error 0 p.1 d.calls unmaps in
            inr (
              rw (retire, well, done_with)
                (record {
                  fine = refl;
                  sized = length-write_headers crc32 md ans.tables (length new) 0 new;
                  opened = write_headers-AreOpen crc32 md ans.tables (length new) 0 new o;
                  counted = refl;
                  unlocked = refl;
                  free = refl;
                }))
      ]

  replace_directory-Outcome :
      (new : List DirMapEntry) (d : DirectoryMap)
      → AreOpen d.directory
      → AreOpen new
      → Outcome d.directory (length new) d.grow_nr (replace_directory crc32 md g ans new d)
  unfolding replace_directory
  replace_directory-Outcome new d o n =
      let p = protect_all ans.read_only_error read_only 0 d.directory in
      let s =
        protect_all-ShutFrom ans.read_only_error read_only 0 d.directory d.directory refl
          (open-ShutFrom d.directory o) in
      let copied = copy_tables d.map_entry_nr_bits (maps_of p.1) (maps_of new) in
      elim (Option-cases p.0) [
        | inr (rc, bad) ↦ inl (rw (replace_directory, bad) (fail3-Kept d.directory p.1 new rc d s))
        | inl well ↦ elim (Option-cases copied) [
          | inl lost ↦
              inl (rw (replace_directory, well, lost) (fail3-Kept d.directory p.1 new done d s))
          | inr (maps, e) ↦
              rw (replace_directory, well, e, sym (length-set_maps new maps))
                (retire-Outcome d.directory p.1 (set_maps new maps) d s
                  (set_maps-AreOpen new maps n))
        ]
      ]

  build-Outcome :
      (size : ℕ) (d : DirectoryMap)
      → AreOpen d.directory
      → d.write_locked ≡ false
      → Outcome d.directory size d.grow_nr (build crc32 md g ans size d)
  unfolding build fail1
  build-Outcome size d o unlocked =
      let s : Stage = allocate_tables g ans.tables 0 size d.calls in
      let t = init_tables (max 1 (max_lock_nr / size)) ans.tables 0 s.entries in
      let d' : DirectoryMap = record d { calls = s.calls; write_locked = true } in
      elim (Option-cases s.error) [
        | inr (rc, bad) ↦ inl (
            rw (build, bad)
              (record { same = refl; counted = refl; unlocked = unlocked; free = refl }))
        | inl well ↦ elim (Option-cases t.0) [
          | inr (rc, bad) ↦ inl (
              rw (build, well, bad)
                (record { same = refl; counted = refl; unlocked = unlocked; free = refl }))
          | inl ready_tables ↦
              let n : length t.1 ≡ size =
                length-init_tables (max 1 (max_lock_nr / size)) ans.tables 0 s.entries
                ∙ length-allocate_tables g ans.tables 0 size d.calls well in
              let new_open =
                init_tables-AreOpen (max 1 (max_lock_nr / size)) ans.tables 0 s.entries
                  (allocate_tables-AreOpen g ans.tables 0 size d.calls) in
              rw (build, well, ready_tables)
                (subst
                  (λ k. Outcome d.directory k d.grow_nr (replace_directory crc32 md g ans t.1 d')) n
                  (replace_directory-Outcome t.1 d' o new_open))
        ]
      ]

  -- From a directory of open regions with both locks free, and whatever the allocator, `mmap`,
  -- the tables' regions and `mprotect` answer, `grow` either returns 0 with the number of open
  -- tables that the doubling gives and one growth more, or leaves the old directory, with its
  -- protections, and the count of growths as they were; both locks are free afterwards.
  -- `munmap` and the `mprotect` that opens the old regions again make no error.
  pub grow-Outcome :
      (d : DirectoryMap)
      → AreOpen d.directory
      → d.write_locked ≡ false
      → d.grow_locked ≡ false
      → Kept d.directory d.grow_nr (grow crc32 md g ans d)
        ⊎ Replaced (grown_size (maps_of d.directory)) d.grow_nr (grow crc32 md g ans d)
  unfolding grow
  grow-Outcome d o unlocked free =
      if_three (Outcome d.directory (grown_size (maps_of d.directory)) d.grow_nr) ans.raced
        ans.dir_space _ _ _
        (inl (record { same = refl; counted = refl; unlocked = unlocked; free = free }))
        (inl (record { same = refl; counted = refl; unlocked = unlocked; free = free }))
        (build-Outcome (grown_size (maps_of d.directory)) (record d { grow_locked = true }) o
          unlocked)
