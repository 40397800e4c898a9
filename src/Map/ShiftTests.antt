-- ===== src/Map/ShiftTests.antt =====
-- A displacement in a small table of udepot-map.hh.
use native.Mathlib.Decide.{ℕ_discrete}
use u_depot.Base.{
  ℕ, zero, suc, ◌<◌, ◌≡◌, ◌≢◌, refl, sym, ap, subst, ◌∙◌, some, true, false, replicate, get_or,
  get_or-set_ne, arith,
}
use u_depot.HashEntry.{erased_entry, empty_entry, used, deleted}
use u_depot.Map.{
  at, insert, update, count_up, hash_to_hb, hash_to_keytag, entry_keyfp, next_free, free_loop,
}
use u_depot.Map.Keys.{IsPlaced}
use u_depot.Map.Tests.{small, one, one-IsSized, one-IsPlaced}
use u_depot.Map.Shift.{swap_slots, try_shift_one}
use u_depot.Map.ShiftKeeps.{IsTidy, SameEntry, try_shift_one-KeepsEntries}

blank : (n i : ℕ) → used (get_or (replicate n erased_entry) i empty_entry) ≡ false
blank zero i = refl
blank (suc n) zero = refl
blank (suc n) (suc i) = blank n i

others_blank : (p : ℕ) → p ≢ 1 → used (at one p) ≡ false
unfolding one insert update count_up
others_blank p ne =
    ap used (get_or-set_ne small.ht 1 p _ empty_entry (λ e. ne (sym e))) ∙ blank 34 p

only_one : (p : ℕ) → used (at one p) ≡ true → 1 ≡ p
only_one p here = elim (ℕ_discrete 1 p) [
  | yes e ↦ e
  | no ne ↦ absurd (cc (here, others_blank p (λ e. ne (sym e))))
]

one_plain : deleted (at one 1) ≡ false
unfolding one insert update count_up
one_plain = refl

one-IsTidy : IsTidy one
one-IsTidy = record {
  sized = one-IsSized;
  placed = λ p here. subst (λ k. IsPlaced one k) (only_one p here) one-IsPlaced;
  plain = λ p here. subst (λ k. deleted (at one k) ≡ false) (only_one p here) one_plain;
}

one_busy : used (at one 1) ≡ true
unfolding one insert update count_up
one_busy = refl

one_wide : 1 < one.entry_nr
unfolding one insert update count_up
one_wide = omega arith

shifted : try_shift_one one 1 ≡ some (swap_slots one 1 2)
unfolding try_shift_one one insert update count_up next_free free_loop hash_to_hb entry_keyfp
    hash_to_keytag
shifted = refl

try_shift_one-KeepsEntries_example :
    IsTidy (swap_slots one 1 2) × ((r : ℕ) × SameEntry one 1 (swap_slots one 1 2) r)
try_shift_one-KeepsEntries_example =
    try_shift_one-KeepsEntries one (swap_slots one 1 2) 1 1 one-IsTidy one_busy one_wide shifted
      one_busy
