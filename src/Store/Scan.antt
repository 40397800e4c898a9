-- ===== src/Store/Scan.antt =====
-- The meaning of a lookup in src/uDepot/udepot-lsa.cc: a scan of the slots of a bucket.
use u_depot.Base.{
  ℕ, zero, suc, ◌+◌, ◌-◌, ◌≤◌, ◌<◌, ◌≡◌, ◌⊎◌, refl, ◌∙◌, sym, Bool, true, false, inl, inr, ◌&&◌,
  not, Option, none, some, ◌==◌, if◌then◌else◌, Bool-cases, arith,
}
use mathlib.Core.Option.{some-injective}
use u_depot.HashEntry.{HashEntry, bucket_size, used, deleted}
use u_depot.Map.{
  Map, hit, miss, no_space, at, lookup, hash_to_hb, hash_to_keyfp, entry_keyfp, next_loop,
}
use u_depot.Store.{enodata, enospc}
use u_depot.Store.Search.{Seen, errored, other, matched, Search, refused, present}

-- a live slot with the fingerprint
abbrev pub is_candidate : Map → ℕ → ℕ → Bool
is_candidate m fp p = used (at m p) && (not (deleted (at m p)) && fp == entry_keyfp m p)

-- How many live slots with the fingerprint there are, of `n` from `p`.
unfoldable pub candidates_nr : Map → ℕ → ℕ → ℕ → ℕ
candidates_nr m fp p zero = 0
candidates_nr m fp p (suc n) =
    let rest = candidates_nr m fp (p + 1) n in if is_candidate m fp p then suc rest else rest

-- The slots in order, `n` of them from `p`: the first live one with the fingerprint whose
-- record holds the key, unless the read of an earlier one fails. `over` stands for the end.
unfoldable pub scan : Map → (HashEntry → Seen) → Search → ℕ → ℕ → ℕ → Search
scan m examine over fp p zero = over
scan m examine over fp p (suc n) = elim (is_candidate m fp p) [
  | false ↦ scan m examine over fp (p + 1) n
  | true ↦ elim (examine (at m p)) [
    | errored rc ↦ refused rc none
    | other ↦ scan m examine over fp (p + 1) n
    | matched md buf ↦ present p (at m p) md buf
  ]
]

-- What a lookup of a key means: the scan of the rest of the bucket from the slot that `lookup`
-- finds, and the failure of `lookup` when there is none.
unfoldable pub find_record : Map → (HashEntry → Seen) → Search → ℕ → Search
find_record m examine over h = elim (lookup m h) [
  | hit q ↦ scan m examine over (hash_to_keyfp m h) q (hash_to_hb m h + bucket_size - q)
  | miss q ↦ refused enodata (some q)
  | no_space ↦ refused enospc none
]

-- the scan that starts at a slot, if there is one
unfoldable pub scan_at : Map → (HashEntry → Seen) → Search → ℕ → ℕ → Option ℕ → Search
scan_at m examine over fp last none = over
scan_at m examine over fp last (some r) = scan m examine over fp r (last - r)

module _ (m : Map) (fp : ℕ) where
  next_loop-step :
      (p n : ℕ)
      → ((is_candidate m fp p ≡ true) × (next_loop m fp p (suc n) ≡ some p))
        ⊎ ((is_candidate m fp p ≡ false) × (next_loop m fp p (suc n) ≡ next_loop m fp (p + 1) n))
  unfolding next_loop
  next_loop-step p n = elim (Bool-cases (used (at m p))) [
    | inr no_use ↦ inr (rw no_use refl, rw no_use refl)
    | inl busy ↦ elim (Bool-cases (deleted (at m p))) [
      | inl gone ↦ inr (rw (busy, gone) refl, rw (busy, gone) refl)
      | inr here ↦ elim (Bool-cases (fp == entry_keyfp m p)) [
        | inl same ↦ inl (rw (busy, here, same) refl, rw (busy, here, same) refl)
        | inr apart ↦ inr (rw (busy, here, apart) refl, rw (busy, here, apart) refl)
      ]
    ]
  ]

  pub next_loop-bounds :
      (p n r : ℕ)
      → next_loop m fp p n ≡ some r
      → (p ≤ r) × (r < p + n) × (is_candidate m fp r ≡ true)
  unfolding next_loop
  next_loop-bounds p zero r e = absurd (cc)
  next_loop-bounds p (suc n) r e = elim (next_loop-step p n) [
    | inl (yes_here, found) ↦
        let same : p ≡ r = some-injective p r (sym found ∙ e) in
        (omega (arith, same), omega (arith, same), rw (sym same) yes_here)
    | inr (not_here, on) ↦
        let (lo, hi, ok) = next_loop-bounds (p + 1) n r (sym on ∙ e) in
        (omega arith, omega arith, ok)
  ]

-- A scan starts in effect at the slot that `next_loop` finds.
pub scan-next_loop :
    (m : Map) (examine : HashEntry → Seen) (over : Search) (fp p n last : ℕ)
    → p + n ≡ last
    → scan m examine over fp p n ≡ scan_at m examine over fp last (next_loop m fp p n)
unfolding scan next_loop scan_at
scan-next_loop m examine over fp p zero last e = refl
scan-next_loop m examine over fp p (suc n) last e = elim (next_loop-step m fp p n) [
  | inl (yes_here, found) ↦
      let size : last - p ≡ suc n = omega arith in rw (found, scan_at, size) refl
  | inr (not_here, on) ↦
      rw (on, scan, not_here) (scan-next_loop m examine over fp (p + 1) n last (omega arith))
]
