-- ===== src/Map/Changes.antt =====
-- A change of one slot of the table of udepot-map.hh, and what other searches make of it.
use native.Mathlib.Decide.{ℕ_discrete}
use u_depot.Base.{ℕ, ◌-◌, ◌≤◌, ◌<◌, ◌≡◌, ◌≢◌, refl, sym, ◌∙◌, length, get_or-set_ne, length-set}
use u_depot.HashEntry.{HashEntry, empty_entry}
use u_depot.Map.{
  Map, hit, at, write, hash_to_hb, hash_to_keyfp, hash_to_keytag, entry_keyfp, lookup,
}
use u_depot.Map.Keys.{IsSized, InBucket, IsTagged-keyfp}
use u_depot.Map.Lookup.{IsMatch, hit-IsMatch, lookup-hit}
use u_depot.Map.Scan.{Holds, Skips}

-- `m'` is `m` but for slot `w` and the counters.
pub record Changes (m m' : Map) (w : ℕ) : Type 0 where
  pub others : (r : ℕ) → r ≢ w → at m' r ≡ at m r
  pub same_nr : m'.entry_nr ≡ m.entry_nr
  pub same_bits : m'.entry_nr_bits ≡ m.entry_nr_bits
  pub same_width : length m'.ht ≡ length m.ht

pub write-Changes : (m : Map) (w : ℕ) (e : HashEntry) → Changes m (write m w e) w
write-Changes m w e = record {
  others = λ r ne. get_or-set_ne m.ht w r e empty_entry (λ x. ne (sym x));
  same_nr = refl;
  same_bits = refl;
  same_width = length-set m.ht w e;
}

module _ {m m' : Map} {w : ℕ} (c : Changes m m' w) where
  pub Changes-IsSized : IsSized m → IsSized m'
  Changes-IsSized s = record {
    homes = rw (c.same_nr, c.same_bits) s.homes;
    few = rw c.same_bits s.few;
    width = rw (c.same_nr, c.same_width) s.width;
  }

  pub hb-Changes : (h : ℕ) → hash_to_hb m' h ≡ hash_to_hb m h
  unfolding hash_to_hb
  hb-Changes h = rw c.same_nr

  pub keyfp-Changes : (h : ℕ) → hash_to_keyfp m' h ≡ hash_to_keyfp m h
  unfolding hash_to_keyfp
  keyfp-Changes h = rw c.same_bits

  pub keytag-Changes : (h : ℕ) → hash_to_keytag m' h ≡ hash_to_keytag m h
  unfolding hash_to_keytag
  keytag-Changes h = rw c.same_bits

  pub entry_keyfp-Changes : (r : ℕ) → r ≢ w → entry_keyfp m' r ≡ entry_keyfp m r
  unfolding entry_keyfp
  entry_keyfp-Changes r ne = rw (c.others r ne, c.same_bits)

  pub Holds-Changes : (t r : ℕ) → r ≢ w → Holds m t r → Holds m' t r
  Holds-Changes t r ne h = rw (entry_keyfp-Changes r ne, c.others r ne) h

  pub Skips-Changes : (t r : ℕ) → r ≢ w → Skips m t r → Skips m' t r
  Skips-Changes t r ne h = rw (entry_keyfp-Changes r ne, c.others r ne) h

  -- A search that stops elsewhere is not disturbed, if it goes on behind the changed slot.
  pub lookup-Changes :
      (h q : ℕ)
      → lookup m h ≡ hit q
      → q ≢ w
      → (hash_to_hb m h ≤ w
          → w < q
          → Skips m (hash_to_keyfp m h) w
          → Skips m' (hash_to_keyfp m h) w)
      → lookup m' h ≡ hit q
  lookup-Changes h q found ne skip =
      let f = hit-IsMatch m h q found in
      let match' : IsMatch m' h q =
        rw (hb-Changes h, keyfp-Changes h)
          (record {
            from = f.from;
            within = f.within;
            holds = Holds-Changes _ q ne f.holds;
            skipped = λ r lo hi. elim (ℕ_discrete r w) [
              | no other ↦ Skips-Changes _ r other (f.skipped r lo hi)
              | yes e ↦ rw e (skip (rw e at lo) (rw e at hi) (rw e at (f.skipped r lo hi)))
            ];
          }) in
      lookup-hit m' h q match'

  -- The changed slot, labelled for `h`, has the fingerprint of `h`.
  pub keyfp-IsTagged :
      (h : ℕ)
      → IsSized m
      → InBucket m h w
      → ((at m' w).bucket_offset ≡ w - hash_to_hb m h)
      → ((at m' w).key_tag ≡ hash_to_keytag m h)
      → entry_keyfp m' w ≡ hash_to_keyfp m h
  keyfp-IsTagged h s b offset tag =
      IsTagged-keyfp (Changes-IsSized s) h w (rw (hb-Changes h) b)
        (rw (hb-Changes h) offset, rw (keytag-Changes h) tag)
      ∙ keyfp-Changes h
