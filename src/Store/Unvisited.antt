-- ===== src/Store/Unvisited.antt =====
-- How many slots of a bucket the search has not yet visited.
use u_depot.Base.{
  ℕ, zero, suc, ◌+◌, ◌≤◌, ◌<◌, ◌≡◌, refl, Bool, true, false, inl, inr, ◌||◌, ◌&&◌, not, List, [],
  length, ◌==◌, if◌then◌else◌, Bool-cases, arith,
}
use native.Mathlib.Decide.{ℕ_discrete}
use u_depot.Map.{Map, at}
use u_depot.Store.Search.{was_visited, update_visited_pba}
use u_depot.Store.Scan.{is_candidate, candidates_nr}

-- a live slot with the fingerprint whose address was not visited
abbrev pub is_unvisited : Map → ℕ → List ℕ → ℕ → Bool
is_unvisited m fp visited p = is_candidate m fp p && not (was_visited (at m p).pba visited)

-- How many they are of `n` slots from `p`.
pub unvisited : Map → ℕ → List ℕ → ℕ → ℕ → ℕ
unvisited m fp visited p zero = 0
unvisited m fp visited p (suc n) =
    let rest = unvisited m fp visited (p + 1) n in
    if is_unvisited m fp visited p then suc rest else rest

pub candidates_nr-le : (m : Map) (fp p n : ℕ) → candidates_nr m fp p n ≤ n
unfolding candidates_nr
candidates_nr-le m fp p zero = omega arith
candidates_nr-le m fp p (suc n) =
    let ih = candidates_nr-le m fp (p + 1) n in
    elim (Bool-cases (is_candidate m fp p)) [
      | inl here ↦ rw (candidates_nr, here) (omega arith)
      | inr apart ↦ rw (candidates_nr, apart) (omega arith)
    ]

-- At first all the candidates are unvisited.
pub unvisited-nothing : (m : Map) (fp p n : ℕ) → unvisited m fp [] p n ≡ candidates_nr m fp p n
unfolding unvisited candidates_nr was_visited
unvisited-nothing m fp p zero = refl
unvisited-nothing m fp p (suc n) =
    let ih = unvisited-nothing m fp (p + 1) n in
    elim (Bool-cases (is_candidate m fp p)) [
      | inl here ↦ rw (unvisited, candidates_nr, here, ih) refl
      | inr apart ↦ rw (unvisited, candidates_nr, apart, ih) refl
    ]

pub length-update_visited_pba :
    (x : ℕ) (visited : List ℕ) → length (update_visited_pba x visited) ≡ suc (length visited)
unfolding update_visited_pba
length-update_visited_pba x visited = refl

pub was_visited-more :
    (pba x : ℕ) (visited : List ℕ)
    → was_visited pba (update_visited_pba x visited) ≡ (pba == x || was_visited pba visited)
unfolding was_visited update_visited_pba
was_visited-more pba x visited = refl

-- Another visit leaves no more slots, and fewer when one of them had the address.
unvisited-step :
    (m : Map) (fp : ℕ) (visited : List ℕ) (x p : ℕ)
    → is_unvisited m fp (update_visited_pba x visited) p ≡ true
    → is_unvisited m fp visited p ≡ true
unvisited-step m fp visited x p e =
    let more = was_visited-more (at m p).pba x visited in ground (arith, e, more)

unvisited-more :
    (m : Map) (fp : ℕ) (visited : List ℕ) (x p n : ℕ)
    → unvisited m fp (update_visited_pba x visited) p n ≤ unvisited m fp visited p n
unfolding unvisited
unvisited-more m fp visited x p zero = omega arith
unvisited-more m fp visited x p (suc n) =
    let ih = unvisited-more m fp visited x (p + 1) n in
    elim (Bool-cases (is_unvisited m fp (update_visited_pba x visited) p)) [
      | inl later ↦ rw (unvisited, later, unvisited-step m fp visited x p later) (omega arith)
      | inr gone ↦ elim (Bool-cases (is_unvisited m fp visited p)) [
        | inl now ↦ rw (unvisited, gone, now) (omega arith)
        | inr never ↦ rw (unvisited, gone, never) ih
      ]
    ]

visited_self :
    (pba : ℕ) (visited : List ℕ) → was_visited pba (update_visited_pba pba visited) ≡ true
visited_self pba visited = let more = was_visited-more pba pba visited in ground (arith, more)

pub unvisited-fewer :
    (m : Map) (fp : ℕ) (visited : List ℕ) (p n r : ℕ)
    → p ≤ r
    → r < p + n
    → is_unvisited m fp visited r ≡ true
    → unvisited m fp (update_visited_pba (at m r).pba visited) p n < unvisited m fp visited p n
unfolding unvisited
unvisited-fewer m fp visited p zero r lo hi new = absurd (omega arith)
unvisited-fewer m fp visited p (suc n) r lo hi new =
    let x = (at m r).pba in
    let rest_le = unvisited-more m fp visited x (p + 1) n in
    elim (ℕ_discrete p r) [
      | yes e ↦
          let seen = visited_self x visited in
          let gone' : is_unvisited m fp (update_visited_pba x visited) r ≡ false =
            ground (arith, seen) in
          let gone : is_unvisited m fp (update_visited_pba x visited) p ≡ false = rw e gone' in
          let now : is_unvisited m fp visited p ≡ true = rw e new in
          rw (unvisited, gone, now) (omega arith)
      | no ne ↦
          let ih = unvisited-fewer m fp visited (p + 1) n r (omega arith) (omega arith) new in
          elim (Bool-cases (is_unvisited m fp (update_visited_pba x visited) p)) [
            | inl later ↦ rw (unvisited, later, unvisited-step m fp visited x p later) (omega arith)
            | inr gone ↦ elim (Bool-cases (is_unvisited m fp visited p)) [
              | inl now ↦ rw (unvisited, gone, now) (omega arith)
              | inr never ↦ rw (unvisited, gone, never) ih
            ]
          ]
    ]
