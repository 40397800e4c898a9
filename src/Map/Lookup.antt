-- ===== src/Map/Lookup.antt =====
-- `lookup` of udepot-map.hh: what it finds, and what an insertion, a removal or a purge does to it.
use u_depot.Base.{ℕ, ◌≤◌, ◌<◌, ◌≡◌, inl, inr, refl, subst, true, none, arith, Option-cases}
use native.Mathlib.Decide.{dec_le}
use u_depot.HashEntry.{bucket_size, used}
use u_depot.Map.{
  Map, Found, hit, miss, no_space, at, hash_to_hb, hash_to_keyfp, match_loop, candidate_loop,
  lookup,
}
use u_depot.Map.Keys.{InBucket}
use u_depot.Map.Scan.{
  IsLive, Holds, IsFree, IsFirstMatch, not_both, match_loop-some, match_loop-first, match_loop-none,
  candidate_loop-some, candidate_loop-none,
}

-- `q` is the slot that a search for `h` stops at.
abbrev pub IsMatch : Map → ℕ → ℕ → Type 0
IsMatch m h q = IsFirstMatch m (hash_to_keyfp m h) (hash_to_hb m h) bucket_size q

-- The slots of the bucket of `h` before `q` are in use, so a search reaches `q`.
abbrev pub IsReached : Map → ℕ → ℕ → Type 0
IsReached m h q = (r : ℕ) → hash_to_hb m h ≤ r → r < q → used (at m r) ≡ true

-- The outcomes of `lookup` in terms of its two loops.
pub data Outcome (m : Map) (h : ℕ) : Found → Type 0 where
  matched : {q : ℕ} → IsMatch m h q → Outcome m h (hit q)
  vacant :
      {q : ℕ}
      → match_loop m (hash_to_keyfp m h) (hash_to_hb m h) bucket_size ≡ none
      → InBucket m h q
      → IsFree m q
      → IsReached m h q
      → Outcome m h (miss q)
  crowded :
      match_loop m (hash_to_keyfp m h) (hash_to_hb m h) bucket_size ≡ none
      → ((r : ℕ) → InBucket m h r → IsLive m r)
      → Outcome m h no_space

-- Each result of `lookup` is justified: a hit is a live slot of the bucket with the
-- fingerprint, behind slots in use that do not match; a slot for a new entry is a free one of
-- the bucket, behind slots in use, when the search for a match has failed; and there is no
-- space only when every slot of the bucket is live.
pub lookup-Outcome : (m : Map) (h : ℕ) → Outcome m h (lookup m h)
unfolding lookup
lookup-Outcome m h =
    elim (Option-cases (match_loop m (hash_to_keyfp m h) (hash_to_hb m h) bucket_size)) [
      | inr (q, e) ↦ rw e (matched (match_loop-some m _ _ _ q e))
      | inl e ↦ elim (Option-cases (candidate_loop m none (hash_to_hb m h) bucket_size)) [
        | inl c ↦ rw (e, c) (crowded e (λ r b. (candidate_loop-none m none _ _ c).1 r b.0 b.1))
        | inr (q, c) ↦ elim (candidate_loop-some m none _ _ q c) [
          | inl x ↦ absurd (cc)
          | inr (lo, hi, free, before) ↦ rw (e, c) (vacant e (lo, hi) free before)
        ]
      ]
    ]

pub lookup-hit : (m : Map) (h q : ℕ) → IsMatch m h q → lookup m h ≡ hit q
unfolding lookup
lookup-hit m h q f = rw (match_loop-first m _ _ _ q f)

Outcome-hit : {m : Map} {h q : ℕ} → Outcome m h (hit q) → IsMatch m h q
Outcome-hit (matched f) = f

abbrev pub IsVacant : Map → ℕ → ℕ → Type 0
IsVacant m h q =
    (match_loop m (hash_to_keyfp m h) (hash_to_hb m h) bucket_size ≡ none)
    × InBucket m h q
    × IsFree m q
    × IsReached m h q

Outcome-miss : {m : Map} {h q : ℕ} → Outcome m h (miss q) → IsVacant m h q
Outcome-miss (vacant e b f r) = (e, b, f, r)

Outcome-no_space : {m : Map} {h : ℕ} → Outcome m h no_space → (r : ℕ) → InBucket m h r → IsLive m r
Outcome-no_space (crowded e live) = live

pub hit-IsMatch : (m : Map) (h q : ℕ) → lookup m h ≡ hit q → IsMatch m h q
hit-IsMatch m h q e = Outcome-hit (subst (Outcome m h) e (lookup-Outcome m h))

pub miss-IsVacant : (m : Map) (h q : ℕ) → lookup m h ≡ miss q → IsVacant m h q
miss-IsVacant m h q e = Outcome-miss (subst (Outcome m h) e (lookup-Outcome m h))

pub no_space-IsLive :
    (m : Map) (h : ℕ) → lookup m h ≡ no_space → (r : ℕ) → InBucket m h r → IsLive m r
no_space-IsLive m h e = Outcome-no_space (subst (Outcome m h) e (lookup-Outcome m h))

-- A live entry with the fingerprint of `h`, in the bucket of `h`, before which the bucket has
-- no unused slot, is found, or one with the same fingerprint before it.
pub lookup-live :
    (m : Map) (h q : ℕ)
    → InBucket m h q
    → Holds m (hash_to_keyfp m h) q
    → IsReached m h q
    → (r : ℕ) × (lookup m h ≡ hit r) × (r ≤ q)
lookup-live m h q b holds reach = go (lookup m h) refl (lookup-Outcome m h)
  where
    absent : match_loop m (hash_to_keyfp m h) (hash_to_hb m h) bucket_size ≡ none → ⊥
    absent e = match_loop-none m _ _ bucket_size q e b.0 b.1 reach holds

    go : (f : Found) → lookup m h ≡ f → Outcome m h f → (r : ℕ) × (lookup m h ≡ hit r) × (r ≤ q)
    go (hit r) e (matched f) = (
      r,
      e,
      elim (dec_le r q) [
        | yes le ↦ le
        | no gt ↦ absurd (not_both m _ q (f.skipped q b.0 (omega arith)) holds)
      ],
    )
    go (miss r) e (vacant none_found _ _ _) = absurd (absent none_found)
    go no_space e (crowded none_found _) = absurd (absent none_found)
