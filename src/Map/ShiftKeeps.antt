-- ===== src/Map/ShiftKeeps.antt =====
-- What `try_shift_one` of udepot-map.hh keeps: the order of the table, and every entry.
use native.Mathlib.Decide.{ℕ_discrete}
use u_depot.Base.{
  ℕ, ◌-◌, ◌^◌, ◌<◌, ◌≡◌, ◌≢◌, inl, inr, sym, ap, subst, ◌∙◌, true, false, none, some, arith, length,
  low32, Option-cases,
}
use u_depot.HashEntry.{HashEntry, bucket_size, deleted, used}
use u_depot.Map.{Map, at, hash_to_hb, entry_keyfp, next_free}
use u_depot.Map.Displace.{Swaps, swap_slots-Swaps}
use u_depot.Map.Keys.{
  IsSized, IsPlaced, InBucket, home_of, homes_bounds, entry_keyfp_lem, hash_to_hb-entry_keyfp,
  hash_to_hb-lt, in_table,
}
use u_depot.Map.Scan.{IsFree, free_loop-some}
use u_depot.Map.Shift.{swap_slots, try_shift_one}

-- A table whose entries stand in their buckets, and none is a tombstone.
pub record IsTidy (m : Map) : Type 0 where
  pub sized : IsSized m
  pub placed : (p : ℕ) → used (at m p) ≡ true → IsPlaced m p
  pub plain : (p : ℕ) → used (at m p) ≡ true → deleted (at m p) ≡ false

-- The entry in slot `r` of `m` stands in slot `r'` of `m'`.
abbrev pub SameEntry : Map → ℕ → Map → ℕ → Type 0
SameEntry m r m' r' =
    (used (at m' r') ≡ true)
    × (entry_keyfp m' r' ≡ entry_keyfp m r)
    × ((at m' r').pba ≡ (at m r).pba)
    × ((at m' r').kv_size ≡ (at m r).kv_size)

abbrev pub KeepsEntries : Map → Map → Type 0
KeepsEntries m m' = (r : ℕ) → used (at m r) ≡ true → (r' : ℕ) × SameEntry m r m' r'

placed_small : (m : Map) (p : ℕ) → IsSized m → IsPlaced m p → p < 2 ^ 64
placed_small m p s v = omega (arith, v.near, v.after_home, v.home_in, homes_bounds s)

-- `next_free` gives an unused slot of the bucket, if there are no tombstones.
next_free-unused :
    (m : Map) (h v : ℕ)
    → IsTidy m
    → next_free m h ≡ some v
    → InBucket m h v × (used (at m v) ≡ false)
unfolding next_free
next_free-unused m h v t e =
    let start : low32 (hash_to_hb m h) ≡ hash_to_hb m h =
      omega (arith, hash_to_hb-lt t.sized h, homes_bounds t.sized) in
    let (lo, hi, free, _) = free_loop-some m (low32 (hash_to_hb m h)) bucket_size v e in
    ((omega arith, omega arith), unused free (t.plain v))
  where
    unused : IsFree m v → (used (at m v) ≡ true → deleted (at m v) ≡ false) → used (at m v) ≡ false
    unused free no_tomb = ground arith

module _ {m m' : Map} {c v : ℕ} (t : IsTidy m) (busy : used (at m c) ≡ true)
    (b : InBucket m (entry_keyfp m c) v) (free : used (at m v) ≡ false) (w : Swaps m m' c v) where
  home : hash_to_hb m (entry_keyfp m c) ≡ home_of m c
  home = let p = t.placed c busy in hash_to_hb-entry_keyfp t.sized c (placed_small m c t.sized p) p

  sized' : IsSized m'
  sized' = record {
    homes = rw (w.same_nr, w.same_bits) t.sized.homes;
    few = rw w.same_bits t.sized.few;
    width = rw (w.same_nr, w.same_width) t.sized.width;
  }

  offset' : (at m' v).bucket_offset ≡ v - home_of m c
  offset' =
      ap (λ (x : HashEntry). x.bucket_offset) w.victim
      ∙ omega (arith, home, b.0, b.1, in_table t.sized (entry_keyfp m c) v b)

  tag' : (at m' v).key_tag ≡ (at m c).key_tag
  tag' = ap (λ (x : HashEntry). x.key_tag) w.victim

  placed' : IsPlaced m' v
  placed' =
      let p = t.placed c busy in
      record {
        near = omega (arith, offset', home, b.0, b.1);
        after_home = omega (arith, offset', home, b.0);
        home_in = rw (w.same_bits, offset') (omega (arith, home, b.0, p.home_in));
        tag_in = rw tag' p.tag_in;
      }

  keyfp' : entry_keyfp m' v ≡ entry_keyfp m c
  keyfp' =
      let p = t.placed c busy in
      let same : home_of m' v ≡ home_of m c = omega (arith, offset', home, b.0) in
      entry_keyfp_lem sized' v (placed_small m' v sized' placed') placed'
      ∙ (rw (same, tag', w.same_bits)
          (sym (entry_keyfp_lem t.sized c (placed_small m c t.sized p) p)))

  other_keyfp : (r : ℕ) → at m' r ≡ at m r → entry_keyfp m' r ≡ entry_keyfp m r
  unfolding entry_keyfp
  other_keyfp r e = rw (e, w.same_bits)

  -- A displacement keeps every entry, with its fingerprint, its address and its size.
  pub Swaps-KeepsEntries : KeepsEntries m m'
  Swaps-KeepsEntries r here = elim (ℕ_discrete r c) [
    | yes e ↦ (
      v,
      subst (λ k. SameEntry m k m' v) (sym e) (rw w.victim busy, keyfp', rw w.victim, rw w.victim),
    )
    | no nc ↦
        let nv : r ≢ v = λ e. cc (free, subst (λ k. used (at m k) ≡ true) e here) in
        let e = w.others r nc nv in (r, (rw e here, other_keyfp r e, rw e, rw e))
  ]

  transfer-IsPlaced : (p : ℕ) → at m' p ≡ at m p → IsPlaced m p → IsPlaced m' p
  transfer-IsPlaced p e q = record {
    near = rw e q.near;
    after_home = rw e q.after_home;
    home_in = rw (e, w.same_bits) q.home_in;
    tag_in = rw e q.tag_in;
  }

  vacated : used (at m' c) ≡ false
  vacated = rw w.candidate free

  unused_there : (p : ℕ) → p ≡ c → used (at m' p) ≡ true → ⊥
  unused_there p e here = cc (vacated, subst (λ k. used (at m' k) ≡ true) e here)

  -- A displacement keeps the order of the table.
  pub Swaps-IsTidy : IsTidy m'
  Swaps-IsTidy = record {
    sized = sized';
    placed = λ p here. elim (ℕ_discrete p v) [
      | yes e ↦ subst (λ k. IsPlaced m' k) (sym e) placed'
      | no nv ↦ elim (ℕ_discrete p c) [
        | yes e ↦ absurd (unused_there p e here)
        | no nc ↦ let e = w.others p nc nv in transfer-IsPlaced p e (t.placed p (rw (sym e) here))
      ]
    ];
    plain = λ p here. elim (ℕ_discrete p v) [
      | yes e ↦ subst (λ k. deleted (at m' k) ≡ false) (sym e) (rw w.victim (t.plain c busy))
      | no nv ↦ elim (ℕ_discrete p c) [
        | yes e ↦ absurd (unused_there p e here)
        | no nc ↦ let e = w.others p nc nv in rw e (t.plain p (rw (sym e) here))
      ]
    ];
  }

try_shift_one-some :
    (m m' : Map) (c : ℕ)
    → try_shift_one m c ≡ some m'
    → (v : ℕ) × (next_free m (entry_keyfp m c) ≡ some v) × (swap_slots m c v ≡ m')
unfolding try_shift_one
try_shift_one-some m m' c e = elim (Option-cases (next_free m (entry_keyfp m c))) [
  | inl none_found ↦
      let e' : try_shift_one m c ≡ none = rw (try_shift_one, none_found) in absurd (cc (e, e'))
  | inr (v, found) ↦
      let e' : try_shift_one m c ≡ some (swap_slots m c v) = rw (try_shift_one, found) in
      (v, found, cc (e, e'))
]

-- In a tidy table, which has a power of two of home slots, entries in their buckets and no
-- tombstones, a displacement that `try_shift_one` makes of an entry of the table leaves the
-- table tidy, and each entry is still in it, in some slot, with its fingerprint, its address
-- and its size.
pub try_shift_one-KeepsEntries :
    (m m' : Map) (c r : ℕ)
    → IsTidy m
    → used (at m c) ≡ true
    → c < m.entry_nr
    → try_shift_one m c ≡ some m'
    → used (at m r) ≡ true
    → IsTidy m' × ((r' : ℕ) × SameEntry m r m' r')
try_shift_one-KeepsEntries m m' c r t busy lt e here =
    let (v, found, same) = try_shift_one-some m m' c e in
    let (b, free) = next_free-unused m (entry_keyfp m c) v t found in
    let apart : c ≢ v = λ q. cc (free, subst (λ k. used (at m k) ≡ true) q busy) in
    let vin : v < length m.ht =
      omega (arith, t.sized.width, in_table t.sized (entry_keyfp m c) v b) in
    let cin : c < length m.ht = omega (arith, t.sized.width) in
    let w = swap_slots-Swaps m c v apart cin vin free in
    subst (λ k. IsTidy k × ((r' : ℕ) × SameEntry m r k r')) same
      (Swaps-IsTidy t busy b free w, Swaps-KeepsEntries t busy b free w r here)
