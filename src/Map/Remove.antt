-- ===== src/Map/Remove.antt =====
-- `remove` and `purge` of udepot-map.hh: what `lookup` finds afterwards.
use native.Mathlib.Decide.{ℕ_discrete, dec_lt}
use u_depot.Base.{
  ℕ, ◌%◌, ◌^◌, ◌≤◌, ◌<◌, ◌≡◌, ◌≢◌, inl, refl, sym, subst, true, false, some, arith, length,
  get_or-set_self,
}
use u_depot.HashEntry.{HashEntry, used, set_deleted, purge_entry, empty_entry, unused_pba_entry}
use u_depot.Map.{Map, hit, at, hash_to_hb, lookup, next, remove, purge, count_down}
use u_depot.Map.Lookup.{IsMatch, hit-IsMatch, lookup-hit}
use u_depot.Map.Scan.{Skips, next_loop-some, not_both, Skips-of_not_Holds}
use u_depot.Map.Changes.{
  Changes, write-Changes, lookup-Changes, Skips-Changes, Holds-Changes, hb-Changes, keyfp-Changes,
}

abbrev tombstone : Map → ℕ → ℕ → HashEntry
tombstone m q pba = set_deleted (record (at m q) { pba = pba % 2 ^ 39 })

remove-Changes : (m : Map) (q pba : ℕ) → Changes m (remove m q pba) q
unfolding remove count_down
remove-Changes m q pba =
    let c = write-Changes m q (tombstone m q pba) in
    record { others = c.others; same_nr = refl; same_bits = refl; same_width = c.same_width }

at-remove : (m : Map) (q pba : ℕ) → q < length m.ht → at (remove m q pba) q ≡ tombstone m q pba
unfolding remove count_down
at-remove m q pba lt = get_or-set_self m.ht q (tombstone m q pba) empty_entry lt

module _ (m : Map) (q pba : ℕ) (lt : q < length m.ht) (real : pba < unused_pba_entry) where
  removed-Skips : (t : ℕ) → Skips (remove m q pba) t q
  removed-Skips t = rw (at-remove m q pba lt) (ground arith, inl refl)

  -- After the entry that `lookup` finds for a hash, in a slot of the table, is removed, with an
  -- address that a slot in use can hold, `lookup` finds the one that `next` gave for it,
  -- provided that the slots between are in use.
  pub lookup-remove :
      (h r : ℕ)
      → lookup m h ≡ hit q
      → next m (some q) h ≡ some r
      → ((k : ℕ) → q < k → k < r → used (at m k) ≡ true)
      → lookup (remove m q pba) h ≡ hit r
  unfolding next
  lookup-remove h r found after busy =
      let f = hit-IsMatch m h q found in
      let c = remove-Changes m q pba in
      let (lo, hi, holds, between) = next_loop-some m _ _ _ r after in
      let match' : IsMatch (remove m q pba) h r =
        rw (hb-Changes c h, keyfp-Changes c h)
          (record {
            from = omega (arith, f.from);
            within = omega (arith, f.within);
            holds = Holds-Changes c _ r (λ x. omega arith) holds;
            skipped = λ k a z. elim (ℕ_discrete k q) [
              | yes e ↦ subst (Skips (remove m q pba) _) (sym e) (removed-Skips _)
              | no ne ↦ Skips-Changes c _ k ne (elim (dec_lt k q) [
                | yes before ↦ f.skipped k a before
                | no past ↦
                    let behind : q < k = omega arith in
                    Skips-of_not_Holds m _ k (busy k behind z) (between k (omega arith) z)
              ])
            ];
          }) in
      lookup-hit _ h r match'

  -- Removing the entry of a slot of the table, with an address that a slot in use can hold,
  -- disturbs no search that finds another slot.
  pub lookup-remove_other :
      (other r : ℕ) → r ≢ q → lookup m other ≡ hit r → lookup (remove m q pba) other ≡ hit r
  lookup-remove_other other r ne there =
      lookup-Changes (remove-Changes m q pba) other r there ne (λ lo hi skip. removed-Skips _)

-- When a slot of the table that stands in the bucket of a hash, before the entry that `lookup`
-- finds for it, is purged, `lookup` finds no entry for the hash any more: a purge leaves an
-- unused slot, and `lookup` stops there.
pub lookup-purge :
    (m : Map) (h p q : ℕ)
    → p < length m.ht
    → lookup m h ≡ hit q
    → hash_to_hb m h ≤ p
    → p < q
    → (r : ℕ) → lookup (purge m p) h ≢ hit r
unfolding purge
lookup-purge m h p q lt found lo hi r there =
    let c = write-Changes m p (purge_entry (at m p)) in
    let f = hit-IsMatch (purge m p) h r there in
    let f₀ = hit-IsMatch m h q found in
    let e = get_or-set_self m.ht p (purge_entry (at m p)) empty_entry lt in
    let unused : used (at (purge m p) p) ≡ false = rw e in
    let start : hash_to_hb (purge m p) h ≡ hash_to_hb m h = hb-Changes c h in
    elim (ℕ_discrete p r) [
      | yes x ↦ cc (unused, subst (λ k. used (at (purge m p) k) ≡ true) (sym x) f.holds.0.0)
      | no ne ↦ elim (dec_lt p r) [
        | yes past ↦ cc (unused, (f.skipped p (omega arith) past).0)
        | no before ↦
            not_both (purge m p) _ r
              (Skips-Changes c _ r (λ x. ne (sym x))
                (f₀.skipped r (omega (arith, f.from)) (omega arith)))
              (rw (keyfp-Changes c h) at f.holds)
      ]
    ]
