-- ===== src/Map/Scan.antt =====
-- The loops of `lookup` in udepot-map.hh, described by what they have seen when they stop.
use u_depot.Base.{
  ℕ, zero, suc, ◌+◌, ◌≤◌, ◌<◌, ◌≡◌, ◌≢◌, ◌⊎◌, inl, inr, refl, sym, ap, subst, ◌∙◌, true, false, not,
  ◌||◌, Option, none, some, ◌==◌, if◌then◌else◌, Bool-cases, arith,
}
use native.Mathlib.Decide.{ℕ_discrete}
use u_depot.HashEntry.{deleted, used}
use u_depot.Map.{Map, at, entry_keyfp, match_loop, candidate_loop, free_loop, next_loop}

abbrev pub IsLive : Map → ℕ → Type 0
IsLive m p = (used (at m p) ≡ true) × (deleted (at m p) ≡ false)

-- a live entry with the fingerprint
abbrev pub Holds : Map → ℕ → ℕ → Type 0
Holds m t p = IsLive m p × (entry_keyfp m p ≡ t)

-- The search goes on behind this slot.
abbrev pub Skips : Map → ℕ → ℕ → Type 0
Skips m t p = (used (at m p) ≡ true) × ((deleted (at m p) ≡ true) ⊎ (entry_keyfp m p ≢ t))

abbrev pub IsFree : Map → ℕ → Type 0
IsFree m p = (used (at m p) ≡ false) ⊎ (deleted (at m p) ≡ true)

-- `q` is the first slot from `p` on, of `n`, that stops the search with a match.
pub record IsFirstMatch (m : Map) (t p n q : ℕ) : Type 0 where
  pub from : p ≤ q
  pub within : q < p + n
  pub holds : Holds m t q
  pub skipped : (r : ℕ) → p ≤ r → r < q → Skips m t r

-- What one slot does to the search.
match_step :
    (m : Map) (t p n : ℕ)
    → ((used (at m p) ≡ false) × (match_loop m t p (suc n) ≡ none))
      ⊎ ((Holds m t p × (match_loop m t p (suc n) ≡ some p))
          ⊎ (Skips m t p × (match_loop m t p (suc n) ≡ match_loop m t (p + 1) n)))
unfolding match_loop
match_step m t p n = elim (Bool-cases (used (at m p))) [
  | inr no_use ↦ inl (no_use, rw no_use)
  | inl busy ↦ elim (Bool-cases (deleted (at m p))) [
    | inl gone ↦ inr (inr ((busy, inl gone), rw (busy, gone)))
    | inr here ↦ elim (Bool-cases (t == entry_keyfp m p)) [
      | inl same ↦ inr (inl (((busy, here), ground arith), rw (busy, here, same)))
      | inr other ↦ inr (inr ((busy, inr (ground arith)), rw (busy, here, other)))
    ]
  ]
]

pub not_both : (m : Map) (t p : ℕ) → Skips m t p → ¬ (Holds m t p)
not_both m t p (busy, inl gone) h = cc
not_both m t p (busy, inr other) h = other h.1

pub Skips-of_not_Holds : (m : Map) (t p : ℕ) → used (at m p) ≡ true → ¬ (Holds m t p) → Skips m t p
Skips-of_not_Holds m t p busy other = elim (Bool-cases (deleted (at m p))) [
  | inl gone ↦ (busy, inl gone)
  | inr here ↦ (busy, inr λ e. other ((busy, here), e))
]

-- A fact of the slots up to `q`, at the first of them.
at_first : {P : ℕ → Type 0} (p q : ℕ) → p ≤ q → P q → ((r : ℕ) → p ≤ r → r < q → P r) → P p
at_first {P} p q le last before = elim (ℕ_discrete p q) [
  | yes e ↦ subst P (sym e) last
  | no ne ↦ before p (omega arith) (omega arith)
]

match_none : (m : Map) (t p : ℕ) → match_loop m t p zero ≡ none
unfolding match_loop
match_none m t p = refl

-- A fact of the first slot and of all behind it.
from_head :
    {P : ℕ → Type 0} (p q : ℕ)
    → P p
    → ((r : ℕ) → p + 1 ≤ r → r < q → P r)
    → (r : ℕ) → p ≤ r
    → r < q
    → P r
from_head {P} p q first rest r lo hi = elim (ℕ_discrete p r) [
  | yes e ↦ subst P e first
  | no ne ↦ rest r (omega arith) hi
]

pub match_loop-some : (m : Map) (t p n q : ℕ) → match_loop m t p n ≡ some q → IsFirstMatch m t p n q
match_loop-some m t p zero q h = cc (match_none m t p)
match_loop-some m t p (suc n) q h = elim (match_step m t p n) [
  | inl (no_use, e) ↦ cc
  | inr (inl (here, e)) ↦
      let here_it : p ≡ q = cc in
      rw (← here_it) (record {
        from = omega arith;
        within = omega arith;
        holds = here;
        skipped = λ r lo hi. absurd (omega arith);
      })
  | inr (inr (skip, e)) ↦
      let f = match_loop-some m t (p + 1) n q (sym e ∙ h) in
      record {
        from = omega (arith, f.from);
        within = omega (arith, f.within);
        holds = f.holds;
        skipped = from_head p q skip f.skipped;
      }
]

-- The first match lies behind a slot that is skipped.
behind :
    (m : Map) (t p n q : ℕ)
    → Skips m t p
    → IsFirstMatch m t p (suc n) q
    → IsFirstMatch m t (p + 1) n q
behind m t p n q skip f =
    let past : p ≢ q = λ e. not_both m t q (subst (Skips m t) e skip) f.holds in
    record {
      from = omega (arith, f.from);
      within = omega (arith, f.within);
      holds = f.holds;
      skipped = λ r lo hi. f.skipped r (omega arith) hi;
    }

pub match_loop-first :
    (m : Map) (t p n q : ℕ) → IsFirstMatch m t p n q → match_loop m t p n ≡ some q
match_loop-first m t p zero q f = absurd (omega (arith, f.from, f.within))
match_loop-first m t p (suc n) q f = elim (match_step m t p n) [
  | inl (no_use, e) ↦ cc (
    no_use,
    at_first {P = λ r. used (at m r) ≡ true} p q f.from f.holds.0.0
        (λ r lo hi. (f.skipped r lo hi).0),
  )
  | inr (inl (here, e)) ↦ elim (ℕ_discrete p q) [
    | yes x ↦ e ∙ ap some x
    | no ne ↦ absurd (not_both m t p (f.skipped p (omega arith) (omega (arith, f.from))) here)
  ]
  | inr (inr (skip, e)) ↦ e ∙ match_loop-first m t (p + 1) n q (behind m t p n q skip f)
]

pub match_loop-none :
    (m : Map) (t p n q : ℕ)
    → match_loop m t p n ≡ none
    → p ≤ q
    → q < p + n
    → ((r : ℕ) → p ≤ r → r < q → used (at m r) ≡ true)
    → ¬ (Holds m t q)
match_loop-none m t p zero q h lo hi u = absurd (omega arith)
match_loop-none m t p (suc n) q h lo hi u = elim (match_step m t p n) [
  | inl (no_use, e) ↦
      λ here. cc (no_use, at_first {P = λ r. used (at m r) ≡ true} p q lo here.0.0 u)
  | inr (inl (here, e)) ↦ cc
  | inr (inr (skip, e)) ↦ λ last. elim (ℕ_discrete p q) [
    | yes x ↦ not_both m t q (subst (Skips m t) x skip) last
    | no ne ↦
        match_loop-none m t (p + 1) n q (sym e ∙ h) (omega arith) (omega arith)
          (λ r low high. u r (omega arith) high) last
  ]
]

-- What `candidate_loop` returns: the candidate it had, or a free slot behind used ones.
abbrev pub Candidate : Map → Option ℕ → ℕ → ℕ → ℕ → Type 0
Candidate m c p n q =
    (c ≡ some q)
    ⊎ ((p ≤ q) × (q < p + n) × IsFree m q × ((r : ℕ) → p ≤ r → r < q → used (at m r) ≡ true))

behind-Candidate :
    (m : Map) (c d : Option ℕ) (p n q : ℕ)
    → used (at m p) ≡ true
    → (d ≡ some q → (c ≡ some q) ⊎ ((p ≡ q) × (deleted (at m p) ≡ true)))
    → Candidate m d (p + 1) n q
    → Candidate m c p (suc n) q
behind-Candidate m c d p n q busy old (inr (lo, hi, free, before)) =
    inr (omega arith, omega arith, free, from_head p q busy before)
behind-Candidate m c d p n q busy old (inl e) = elim (old e) [
  | inl x ↦ inl x
  | inr (x, gone) ↦ inr (
    omega arith,
    omega arith,
    inr (subst (λ r. deleted (at m r) ≡ true) x gone),
    λ r lo hi. absurd (omega arith),
  )
]

pub candidate_loop-some :
    (m : Map) (c : Option ℕ) (p n q : ℕ) → candidate_loop m c p n ≡ some q → Candidate m c p n q
unfolding candidate_loop
candidate_loop-some m c p zero q h = inl h
candidate_loop-some m c p (suc n) q h = elim (Bool-cases (used (at m p))) [
  | inr no_use ↦
      let x : p ≡ q = ground arith in
      inr (
        omega arith,
        omega arith,
        inl (subst (λ r. used (at m r) ≡ false) x no_use),
        λ r lo hi. absurd (omega arith),
      )
  | inl busy ↦
      let d : Option ℕ = if deleted (at m p) then some p else c in
      behind-Candidate m c d p n q busy (ground arith)
        (candidate_loop-some m d (p + 1) n q (ground arith))
]

-- With no candidate at the end, every slot is live.
pub candidate_loop-none :
    (m : Map) (c : Option ℕ) (p n : ℕ)
    → candidate_loop m c p n ≡ none
    → (c ≡ none) × ((r : ℕ) → p ≤ r → r < p + n → IsLive m r)
unfolding candidate_loop
candidate_loop-none m c p zero h = (h, λ r lo hi. absurd (omega arith))
candidate_loop-none m c p (suc n) h =
    let d : Option ℕ = if deleted (at m p) then some p else c in
    let (x, rest) = candidate_loop-none m d (p + 1) n (ground arith) in
    let first : (c ≡ none) × IsLive m p = ground arith in
    (
      first.0,
      λ r lo hi.
          from_head {P = IsLive m} p (p + suc n) first.1 (λ k low high. rest k low (omega arith)) r
            lo hi,
    )

-- `next_free` finds the first free slot, or all are live.
pub free_loop-some :
    (m : Map) (p n q : ℕ)
    → free_loop m p n ≡ some q
    → (p ≤ q) × (q < p + n) × IsFree m q × ((r : ℕ) → p ≤ r → r < q → IsLive m r)
unfolding free_loop
free_loop-some m p zero q h = cc
free_loop-some m p (suc n) q h = elim (Bool-cases (not (used (at m p)) || deleted (at m p))) [
  | inl free ↦
      let x : p ≡ q = ground arith in
      let f : IsFree m p = ground arith in
      (omega arith, omega arith, subst (IsFree m) x f, λ r lo hi. absurd (omega arith))
  | inr busy ↦
      let (lo, hi, free, before) = free_loop-some m (p + 1) n q (ground arith) in
      let live : IsLive m p = ground arith in
      (omega arith, omega arith, free, from_head {P = IsLive m} p q live before)
]

pub free_loop-none :
    (m : Map) (p n : ℕ) → free_loop m p n ≡ none → (r : ℕ) → p ≤ r → r < p + n → IsLive m r
unfolding free_loop
free_loop-none m p zero h = λ r lo hi. absurd (omega arith)
free_loop-none m p (suc n) h =
    let live : IsLive m p = ground arith in
    let rest = free_loop-none m (p + 1) n (ground arith) in
    from_head {P = IsLive m} p (p + suc n) live (λ k low high. rest k low (omega arith))

pub free_not-IsLive : (m : Map) (p : ℕ) → IsFree m p → ¬ (IsLive m p)
free_not-IsLive m p (inl no_use) live = cc
free_not-IsLive m p (inr gone) live = cc

-- A slot that `next` returns is behind its start and holds the fingerprint; it is the first such.
pub next_loop-some :
    (m : Map) (t p n q : ℕ)
    → next_loop m t p n ≡ some q
    → (p ≤ q) × (q < p + n) × Holds m t q × ((r : ℕ) → p ≤ r → r < q → ¬ (Holds m t r))
unfolding next_loop
next_loop-some m t p zero q h = cc
next_loop-some m t p (suc n) q h = elim (Bool-cases (not (used (at m p)) || deleted (at m p))) [
  | inl free ↦
      let (lo, hi, holds, before) = next_loop-some m t (p + 1) n q (ground arith) in
      let none_here : ¬ (Holds m t p) = ground arith in
      (omega arith, omega arith, holds, from_head {P = λ r. ¬ (Holds m t r)} p q none_here before)
  | inr busy ↦ elim (Bool-cases (t == entry_keyfp m p)) [
    | inl same ↦
        let x : p ≡ q = ground arith in
        let here : Holds m t p = ((ground arith, ground arith), ground arith) in
        (omega arith, omega arith, subst (Holds m t) x here, λ r lo hi. absurd (omega arith))
    | inr other ↦
        let (lo, hi, holds, before) = next_loop-some m t (p + 1) n q (ground arith) in
        let none_here : ¬ (Holds m t p) = ground arith in
        (omega arith, omega arith, holds, from_head {P = λ r. ¬ (Holds m t r)} p q none_here before)
  ]
]
