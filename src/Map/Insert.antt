-- ===== src/Map/Insert.antt =====
-- `insert`, `update` and `update_inplace` of udepot-map.hh: what `lookup` finds afterwards.
use native.Mathlib.Nat.{mod-eq_of_lt}
use u_depot.Base.{
  ℕ, ◌%◌, ◌^◌, ◌≤◌, ◌<◌, ◌≡◌, ◌≢◌, inr, refl, sym, ap, subst, ◌∙◌, min, arith, sub64, length,
  get_or-set_self,
}
use u_depot.HashEntry.{HashEntry, bucket_size, empty_entry, unused_pba_entry, max_kv_size}
use u_depot.Map.{
  Map, hit, miss, at, write, hash_to_hb, hash_to_keytag, hash_to_keyfp, entry_keyfp, lookup, insert,
  update, update_inplace, count_up,
}
use u_depot.Map.Keys.{InBucket, IsTagged, in_table, IsSized, hash_to_keytag_lem}
use u_depot.Map.Lookup.{IsMatch, IsVacant, hit-IsMatch, miss-IsVacant, lookup-hit}
use u_depot.Map.Scan.{IsLive, Skips, match_loop-none, free_not-IsLive, Skips-of_not_Holds}
use u_depot.Map.Changes.{
  Changes, hb-Changes, keyfp-Changes, write-Changes, Skips-Changes, lookup-Changes, keyfp-IsTagged,
}

-- What `insert` writes to its slot.
abbrev pub new_entry : Map → ℕ → ℕ → ℕ → ℕ → HashEntry
new_entry m q h kv_size pba = record {
  bucket_offset = sub64 q (hash_to_hb m h) % 2 ^ 6;
  key_tag = hash_to_keytag m h % 2 ^ 8;
  kv_size = min kv_size max_kv_size;
  pba = pba % 2 ^ 39;
}

pub insert-Changes : (m : Map) (q h kv_size pba : ℕ) → Changes m (insert m q h kv_size pba) q
unfolding insert update count_up
insert-Changes m q h kv_size pba =
    let c = write-Changes m q (new_entry m q h kv_size pba) in
    record { others = c.others; same_nr = refl; same_bits = refl; same_width = c.same_width }

pub at-insert :
    (m : Map) (q h kv_size pba : ℕ)
    → q < length m.ht
    → at (insert m q h kv_size pba) q ≡ new_entry m q h kv_size pba
unfolding insert update count_up
at-insert m q h kv_size pba lt = get_or-set_self m.ht q (new_entry m q h kv_size pba) empty_entry lt

module _ {m : Map} (s : IsSized m) (h q : ℕ) (b : InBucket m h q) (kv_size pba : ℕ) where
  -- The new entry carries the fingerprint of the hash.
  pub entry_keyfp-insert : entry_keyfp (insert m q h kv_size pba) q ≡ hash_to_keyfp m h
  entry_keyfp-insert =
      let m' = insert m q h kv_size pba in
      let e = at-insert m q h kv_size pba (in_table s h q b).0 in
      keyfp-IsTagged (insert-Changes m q h kv_size pba) h s b
        (ap (λ (x : HashEntry). x.bucket_offset) e ∙ omega (arith, b.0, b.1, in_table s h q b))
        (ap (λ (x : HashEntry). x.key_tag) e ∙ omega (arith, hash_to_keytag_lem s h))

  pub insert-IsLive : 0 < kv_size → pba < unused_pba_entry → IsLive (insert m q h kv_size pba) q
  insert-IsLive some_size real =
      rw (at-insert m q h kv_size pba (in_table s h q b).0) (ground arith, ground arith)

-- A vacant slot lies behind entries that a search for the hash skips.
vacant-Skips :
    (m : Map) (h q r : ℕ)
    → IsVacant m h q
    → hash_to_hb m h ≤ r
    → r < q
    → Skips m (hash_to_keyfp m h) r
vacant-Skips m h q r v lo hi =
    let (none_found, b, _, reach) = v in
    Skips-of_not_Holds m _ r (reach r lo hi) (
      match_loop-none m _ _ bucket_size r none_found lo (omega (arith, b.1))
        (λ k low high. reach k low (omega arith)))

-- In a table of a power of two of home slots, after `lookup` has reported slot `q` for a new
-- entry and the entry, of a positive size and an address that a slot in use can hold, is
-- inserted there, `lookup` finds it at `q`, with its address, and with its size as far as the
-- field holds it.
pub lookup-insert :
    (m : Map) (h q kv_size pba : ℕ)
    → IsSized m
    → lookup m h ≡ miss q
    → 0 < kv_size
    → pba < unused_pba_entry
    → let m' = insert m q h kv_size pba in
      (lookup m' h ≡ hit q) × ((at m' q).pba ≡ pba) × ((at m' q).kv_size ≡ min kv_size max_kv_size)
lookup-insert m h q kv_size pba s found some_size real =
    let v = miss-IsVacant m h q found in
    let b = v.1 in
    let c = insert-Changes m q h kv_size pba in
    let e = at-insert m q h kv_size pba (in_table s h q b).0 in
    let match' : IsMatch (insert m q h kv_size pba) h q =
      rw (hb-Changes c h, keyfp-Changes c h)
        (record {
          from = b.0;
          within = b.1;
          holds = (
            insert-IsLive s h q b kv_size pba some_size real,
            entry_keyfp-insert s h q b kv_size pba,
          );
          skipped =
              λ r lo hi. Skips-Changes c _ r (λ x. omega arith) (vacant-Skips m h q r v lo hi);
        }) in
    (
      lookup-hit _ h q match',
      ap (λ (x : HashEntry). x.pba) e ∙ mod-eq_of_lt (omega arith),
      ap (λ (x : HashEntry). x.kv_size) e,
    )

-- In a table of a power of two of home slots, inserting an entry in the slot that `lookup`
-- reported for it changes no search that finds an entry of another fingerprint, if the address
-- is one that a slot in use can hold.
pub lookup-insert_other :
    (m : Map) (h q kv_size pba other r : ℕ)
    → IsSized m
    → lookup m h ≡ miss q
    → pba < unused_pba_entry
    → hash_to_keyfp m other ≢ hash_to_keyfp m h
    → lookup m other ≡ hit r
    → lookup (insert m q h kv_size pba) other ≡ hit r
lookup-insert_other m h q kv_size pba other r s found real apart there =
    let (_, b, free, _) = miss-IsVacant m h q found in
    let f = hit-IsMatch m other r there in
    let e = at-insert m q h kv_size pba (in_table s h q b).0 in
    lookup-Changes (insert-Changes m q h kv_size pba) other r there
      (λ x. free_not-IsLive m q free (subst (IsLive m) x f.holds.0))
      (λ lo hi skip. (
        rw e (ground arith),
        inr λ same. apart (sym same ∙ entry_keyfp-insert s h q b kv_size pba),
      ))

-- In a table of a power of two of home slots, a relocation gives the entry that `lookup` finds
-- for a hash, and that is labelled with the home slot and the tag of the hash, its new address
-- and size, and `lookup` goes on to find it, if the size is positive and the address is one
-- that a slot in use can hold.
pub lookup-update_inplace :
    (m : Map) (h q kv_size pba : ℕ)
    → IsSized m
    → IsTagged m h q
    → lookup m h ≡ hit q
    → 0 < kv_size
    → pba < unused_pba_entry
    → let m' = update_inplace m q h kv_size pba in
      (lookup m' h ≡ hit q) × ((at m' q).pba ≡ pba) × ((at m' q).kv_size ≡ min kv_size max_kv_size)
unfolding update_inplace
lookup-update_inplace m h q kv_size pba s tagged found some_size real =
    let f = hit-IsMatch m h q found in
    let b : InBucket m h q = (f.from, f.within) in
    let x = record (at m q) {
      key_tag = hash_to_keytag m h % 2 ^ 8;
      kv_size = min kv_size max_kv_size;
      pba = pba % 2 ^ 39;
    } in
    let c = write-Changes m q x in
    let e = get_or-set_self m.ht q x empty_entry (in_table s h q b).0 in
    let fp =
      keyfp-IsTagged c h s b (ap (λ (x : HashEntry). x.bucket_offset) e ∙ tagged.0)
        (ap (λ (x : HashEntry). x.key_tag) e ∙ omega (arith, hash_to_keytag_lem s h)) in
    let match' : IsMatch (write m q x) h q =
      rw (hb-Changes c h, keyfp-Changes c h)
        (record {
          from = b.0;
          within = b.1;
          holds = (rw e (ground arith, ground arith), fp);
          skipped = λ r lo hi. Skips-Changes c _ r (λ x. omega arith) (f.skipped r lo hi);
        }) in
    (
      lookup-hit _ h q match',
      ap (λ (x : HashEntry). x.pba) e ∙ mod-eq_of_lt (omega arith),
      ap (λ (x : HashEntry). x.kv_size) e,
    )
