-- ===== src/Store/SearchFinds.antt =====
-- The search of the lookups, when nothing else changes the directory, against a scan of the bucket.
use u_depot.Base.{
  ℕ, zero, suc, ◌+◌, ◌-◌, ◌≤◌, ◌<◌, ◌≡◌, ◌⊎◌, refl, ◌∙◌, sym, ap, subst, true, false, inl, inr,
  Option, none, some, List, [], ◌==◌, length, ltb, lt→ltb, ltb→lt, Bool-cases, Option-cases, arith,
}
use mathlib.Core.Option.{some-injective, none-ne-some}
use u_depot.HashEntry.{HashEntry, bucket_size}
use u_depot.Map.{
  Map, hit, miss, no_space, Found, at, lookup, hash_to_hb, hash_to_keyfp, next_loop, next,
}
use u_depot.Map.Lookup.{hit-IsMatch}
use u_depot.Directory.{Directory, hash_to_map}
use u_depot.Store.{Rc, enodata, enospc, assertion_failed, Header}
use u_depot.Store.Scan.{
  scan, scan_at, find_record, is_candidate, candidates_nr, scan-next_loop, next_loop-bounds,
}
use u_depot.Store.Unvisited.{
  is_unvisited, unvisited, unvisited-nothing, candidates_nr-le, unvisited-fewer, was_visited-more,
  length-update_visited_pba,
}
use u_depot.Store.Search.{
  was_visited, visited_pba, update_visited_pba, skip_visited, lookup_common, failed, candidate,
  Seen, errored, other, matched, Search, refused, present, search,
}

Seen-cases :
    (s : Seen)
    → ((rc : Rc) × (s ≡ errored rc))
      ⊎ ((s ≡ other) ⊎ ((md : Header) × (buf : List ℕ) × (s ≡ matched md buf)))
Seen-cases (errored rc) = inl (rc, refl)
Seen-cases other = inr (inl refl)
Seen-cases (matched md buf) = inr (inr (md, buf, refl))

Found-cases : (f : Found) → ((q : ℕ) × (f ≡ hit q)) ⊎ (((q : ℕ) × (f ≡ miss q)) ⊎ (f ≡ no_space))
Found-cases (hit q) = inl (q, refl)
Found-cases (miss q) = inr (inl (q, refl))
Found-cases no_space = inr (inr refl)

-- The entries that a search may skip, since their records hold another key.
abbrev IsPassed : Map → (HashEntry → Seen) → List ℕ → Type 0
IsPassed m examine visited =
    (r : ℕ) → was_visited (at m r).pba visited ≡ true → examine (at m r) ≡ other

-- The result of a search is that of the scan, unless the assertion on the visited addresses
-- fails: then all the slots of the bucket are live ones of the fingerprint, and the scan, too,
-- finds the key in none of them.
abbrev pub IsScanOrFull : Map → ℕ → (over result scanned : Search) → Type 0
IsScanOrFull m h over result scanned =
    (result ≡ scanned)
    ⊎ ((result ≡ refused assertion_failed none)
        × (candidates_nr m (hash_to_keyfp m h) (hash_to_hb m h) bucket_size ≡ bucket_size)
        × (scanned ≡ over))

module _ (d : Directory) (examine : HashEntry → Seen) (over : Search) (h : ℕ) where
  abbrev m : Map
  m = hash_to_map d h

  abbrev last : ℕ
  last = hash_to_hb m h + bucket_size

  abbrev fp : ℕ
  fp = hash_to_keyfp m h

  -- Skipping the visited slots changes nothing of a scan.
  scan-skip_visited :
      (visited : List ℕ) (n q : ℕ)
      → q < last
      → last - q ≤ n
      → IsPassed m examine visited
      → is_candidate m fp q ≡ true
      → scan m examine over fp q (last - q)
        ≡ scan_at m examine over fp last (skip_visited d h visited n q)
  unfolding skip_visited scan_at scan next
  scan-skip_visited visited zero q lt fuel passed here = absurd (omega arith)
  scan-skip_visited visited (suc n) q lt fuel passed here =
      let size : last - q ≡ suc (last - (q + 1)) = omega arith in
      elim (Bool-cases (was_visited (at m q).pba visited)) [
        | inr new ↦ rw (skip_visited, new) refl
        | inl seen ↦
            let on : scan m examine over fp q (last - q)
                ≡ scan m examine over fp (q + 1) (last - (q + 1)) =
              ap (scan m examine over fp q) size ∙ rw (scan, here, passed q seen) refl in
            let jump =
              scan-next_loop m examine over fp (q + 1) (last - (q + 1)) last (omega arith) in
            elim (Option-cases (next_loop m fp (q + 1) (last - (q + 1)))) [
              | inl e ↦ on ∙ jump ∙ rw (skip_visited, seen, e) refl
              | inr (r, e) ↦
                  let (lo, hi, ok) = next_loop-bounds m fp (q + 1) (last - (q + 1)) r e in
                  on
                  ∙ jump
                  ∙ rw (skip_visited, seen, e)
                      (scan-skip_visited visited n r (omega arith) (omega arith) passed ok)
            ]
      ]

  -- The slot that is left was not visited, and is one of the bucket.
  skip_visited-some :
      (visited : List ℕ) (n q r : ℕ)
      → q < last
      → is_candidate m fp q ≡ true
      → skip_visited d h visited n q ≡ some r
      → (was_visited (at m r).pba visited ≡ false)
        × (q ≤ r)
        × (r < last)
        × (is_candidate m fp r ≡ true)
  unfolding skip_visited next
  skip_visited-some visited zero q r lt here e = absurd (cc)
  skip_visited-some visited (suc n) q r lt here e =
      elim (Bool-cases (was_visited (at m q).pba visited)) [
        | inr new ↦
            let same : q ≡ r = some-injective q r (rw (skip_visited, new) at e) in
            rw (sym same) (new, omega arith, lt, here)
        | inl seen ↦ elim (Option-cases (next_loop m fp (q + 1) (last - (q + 1)))) [
          | inl none_left ↦ absurd (none-ne-some r (rw (skip_visited, seen, none_left) at e))
          | inr (k, found) ↦
              let (lo, hi, ok) = next_loop-bounds m fp (q + 1) (last - (q + 1)) k found in
              let (new, le, in_bucket, ok') =
                skip_visited-some visited n k r (omega arith) ok
                  (rw (skip_visited, seen, found) at e) in
              (new, omega arith, in_bucket, ok')
        ]
      ]

  update-IsPassed :
      ((r s : ℕ) → (at m r).pba ≡ (at m s).pba → examine (at m r) ≡ examine (at m s))
      → (visited : List ℕ) (r : ℕ) → IsPassed m examine visited
      → examine (at m r) ≡ other
      → IsPassed m examine (update_visited_pba (at m r).pba visited)
  update-IsPassed same_record visited r passed not_it s seen =
      let more = was_visited-more (at m s).pba (at m r).pba visited in
      elim (Bool-cases ((at m s).pba == (at m r).pba)) [
        | inl same ↦ same_record s r (ground arith) ∙ not_it
        | inr apart ↦ passed s (rw apart at (sym more ∙ seen))
      ]

  lookup_common-hit :
      (visited : List ℕ) (q : ℕ)
      → lookup m h ≡ hit q
      → length visited < bucket_size
      → lookup_common d h visited ≡ candidate (skip_visited d h visited bucket_size q)
  unfolding lookup_common visited_pba
  lookup_common-hit visited q found room =
      rw (lookup_common, found, visited_pba, lt→ltb (length visited) bucket_size room) refl

  lookup_common-full :
      (visited : List ℕ) (q : ℕ)
      → lookup m h ≡ hit q
      → ltb (length visited) bucket_size ≡ false
      → lookup_common d h visited ≡ failed assertion_failed none
  unfolding lookup_common visited_pba
  lookup_common-full visited q found full = rw (lookup_common, found, visited_pba, full) refl

  nothing-IsPassed : IsPassed m examine []
  unfolding was_visited
  nothing-IsPassed r e = absurd (cc)

  match-is_candidate : (q : ℕ) → lookup m h ≡ hit q → is_candidate m fp q ≡ true
  match-is_candidate q found =
      let f = hit-IsMatch m h q found in
      let (live, same) = f.holds in rw (live.0, live.1, same) (ground arith)

  abbrev fresh : List ℕ → ℕ
  fresh visited = unvisited m fp visited (hash_to_hb m h) bucket_size

  abbrev live_nr : ℕ
  live_nr = candidates_nr m fp (hash_to_hb m h) bucket_size

  -- A slot that was not visited is passed over once it is.
  fresh-fewer :
      (visited : List ℕ) (q r : ℕ)
      → lookup m h ≡ hit q
      → skip_visited d h visited bucket_size q ≡ some r
      → fresh (update_visited_pba (at m r).pba visited) < fresh visited
  fresh-fewer visited q r found e =
      let f = hit-IsMatch m h q found in
      let from : hash_to_hb m h ≤ q = f.from in
      let within : q < last = f.within in
      let (new, le, in_bucket, ok) =
        skip_visited-some visited bucket_size q r within (match-is_candidate q found) e in
      let now : is_unvisited m fp visited r ≡ true = rw (ok, new) refl in
      unvisited-fewer m fp visited (hash_to_hb m h) bucket_size r (omega arith) (omega arith) now

  -- With 32 addresses visited, all the slots are live ones, and none is left.
  search-full :
      (visited : List ℕ) (q : ℕ)
      → lookup m h ≡ hit q
      → length visited + fresh visited ≤ live_nr
      → bucket_size ≤ length visited
      → IsPassed m examine visited
      → (live_nr ≡ bucket_size) × (scan m examine over fp q (last - q) ≡ over)
  unfolding scan_at
  search-full visited q found counted full passed =
      let f = hit-IsMatch m h q found in
      let from : hash_to_hb m h ≤ q = f.from in
      let most = candidates_nr-le m fp (hash_to_hb m h) bucket_size in
      let skip =
        scan-skip_visited visited bucket_size q f.within (omega arith) passed
          (match-is_candidate q found) in
      elim (Option-cases (skip_visited d h visited bucket_size q)) [
        | inl e ↦ (omega arith, skip ∙ rw e refl)
        | inr (r, e) ↦
            let fewer = fresh-fewer visited q r found e in absurd (omega (arith, fewer, most))
      ]

  -- The rounds of the search, by what a scan from the slot they look at gives.
  search-round :
      (settle : ℕ → ℕ → HashEntry → Option ℕ)
      → ((k q : ℕ) → settle k q (at m q) ≡ some q)
      → ((r s : ℕ) → (at m r).pba ≡ (at m s).pba → examine (at m r) ≡ examine (at m s))
      → (q : ℕ) → lookup m h ≡ hit q
      → (fuel round : ℕ) (visited : List ℕ) → bucket_size < length visited + fuel
      → length visited + fresh visited ≤ live_nr
      → IsPassed m examine visited
      → IsScanOrFull m h over
          (search (λ _. d) (λ _. examine) settle (λ _. over) h fuel round visited)
          (scan m examine over fp q (last - q))
  unfolding search scan_at scan
  search-round settle steady same_record q found zero round visited enough counted passed =
      let most = candidates_nr-le m fp (hash_to_hb m h) bucket_size in absurd (omega (arith, most))
  search-round settle steady same_record q found (suc fuel) round visited enough counted passed =
      let f = hit-IsMatch m h q found in
      let from : hash_to_hb m h ≤ q = f.from in
      let within : q < last = f.within in
      let here = match-is_candidate q found in
      elim (Bool-cases (ltb (length visited) bucket_size)) [
        | inr full ↦
            let (all_live, nothing) =
              search-full visited q found counted (ground (arith, full)) passed in
            inr (rw (search, lookup_common-full visited q found full) refl, all_live, nothing)
        | inl room ↦
            let common = lookup_common-hit visited q found (ltb→lt _ _ room) in
            let skip = scan-skip_visited visited bucket_size q within (omega arith) passed here in
            elim (Option-cases (skip_visited d h visited bucket_size q)) [
              | inl e ↦ inl (rw (search, common, e) (sym (skip ∙ rw e refl)))
              | inr (r, e) ↦
                  let (new, le, in_bucket, ok) =
                    skip_visited-some visited bucket_size q r within here e in
                  let fewer = fresh-fewer visited q r found e in
                  let longer = length-update_visited_pba (at m r).pba visited in
                  let size : last - r ≡ suc (last - (r + 1)) = omega arith in
                  let start : scan m examine over fp q (last - q)
                      ≡ scan m examine over fp r (suc (last - (r + 1))) =
                    skip ∙ rw e (ap (scan m examine over fp r) size) in
                  elim (Seen-cases (examine (at m r))) [
                    | inl (rc, seen) ↦
                        inl (rw (search, common, e, seen) (sym (start ∙ rw (scan, ok, seen) refl)))
                    | inr (inl seen) ↦
                        rw (search, common, e, seen)
                          (search-round settle steady same_record q found fuel (round + 1)
                            (update_visited_pba (at m r).pba visited)
                            (omega (arith, enough, longer)) (omega (arith, fewer, longer, counted))
                            (update-IsPassed same_record visited r passed seen))
                    | inr (inr (md, buf, seen)) ↦ inl (
                        rw (search, common, e, seen, steady round r)
                          (sym (start ∙ rw (scan, ok, seen) refl)))
                  ]
            ]
      ]

module _ (dirs : ℕ → Directory) (examine : ℕ → HashEntry → Seen)
    (settle : ℕ → ℕ → HashEntry → Option ℕ) (finish : ℕ → Search) (h fuel round : ℕ)
    (visited : List ℕ) where
  -- A search ends where the lookup of the directory fails,
  pub search-refused :
      (rc : Rc) (t : Option ℕ)
      → lookup_common (dirs round) h visited ≡ failed rc t
      → search dirs examine settle finish h (suc fuel) round visited ≡ refused rc t
  unfolding search
  search-refused rc t e = rw (search, e) refl

  -- and at a slot whose record holds the key and that stands.
  pub search-present :
      (q r : ℕ) (md : Header) (buf : List ℕ)
      → lookup_common (dirs round) h visited ≡ candidate (some q)
      → examine round (at (hash_to_map (dirs round) h) q) ≡ matched md buf
      → settle round q (at (hash_to_map (dirs round) h) q) ≡ some r
      → search dirs examine settle finish h (suc fuel) round visited
        ≡ present r (at (hash_to_map (dirs round) h) q) md buf
  unfolding search
  search-present q r md buf e seen there = rw (search, e, seen, there) refl

pub lookup_common-miss :
    (d : Directory) (h : ℕ) (visited : List ℕ) (q : ℕ)
    → lookup (hash_to_map d h) h ≡ miss q
    → lookup_common d h visited ≡ failed enodata (some q)
unfolding lookup_common
lookup_common-miss d h visited q found = rw (lookup_common, found) refl

pub lookup_common-no_space :
    (d : Directory) (h : ℕ) (visited : List ℕ)
    → lookup (hash_to_map d h) h ≡ no_space
    → lookup_common d h visited ≡ failed enospc none
unfolding lookup_common
lookup_common-no_space d h visited found = rw (lookup_common, found) refl

-- With nothing visited, the slot of the lookup is the one to look at.
pub lookup_common-first :
    (d : Directory) (h q : ℕ)
    → lookup (hash_to_map d h) h ≡ hit q
    → lookup_common d h [] ≡ candidate (some q)
unfolding lookup_common skip_visited was_visited visited_pba
lookup_common-first d h q found = rw (lookup_common, found) refl

module _ (m : Map) (examine : HashEntry → Seen) (over : Search) (h : ℕ) where
  find_record-hit :
      (q : ℕ)
      → lookup m h ≡ hit q
      → find_record m examine over h
        ≡ scan m examine over (hash_to_keyfp m h) q (hash_to_hb m h + bucket_size - q)
  unfolding find_record
  find_record-hit q found = rw (find_record, found) refl

  find_record-miss :
      (q : ℕ) → lookup m h ≡ miss q → find_record m examine over h ≡ refused enodata (some q)
  unfolding find_record
  find_record-miss q found = rw (find_record, found) refl

  find_record-no_space : lookup m h ≡ no_space → find_record m examine over h ≡ refused enospc none
  unfolding find_record
  find_record-no_space found = rw (find_record, found) refl

-- When the directory stays, entries are settled in their own slots, and slots of one address
-- show one record, the search of the lookups ends after at most 33 rounds with the first slot,
-- in the order of the bucket, whose record holds the key: it is the scan of the bucket, unless
-- the assertion on the visited addresses fails.
pub search-find_record :
    (d : Directory) (examine : HashEntry → Seen) (settle : ℕ → ℕ → HashEntry → Option ℕ)
    (over : Search) (h : ℕ)
    → ((k q : ℕ) → settle k q (at (hash_to_map d h) q) ≡ some q)
    → ((r s : ℕ)
        → (at (hash_to_map d h) r).pba ≡ (at (hash_to_map d h) s).pba
        → examine (at (hash_to_map d h) r) ≡ examine (at (hash_to_map d h) s))
    → IsScanOrFull
        (hash_to_map d h)
        h
        over
        (search (λ _. d) (λ _. examine) settle (λ _. over) h 33 0 [])
        (find_record (hash_to_map d h) examine over h)
search-find_record d examine settle over h steady same_record =
    let m : Map = hash_to_map d h in
    elim (Found-cases (lookup m h)) [
      | inl (q, found) ↦
          let all_new = unvisited-nothing m (hash_to_keyfp m h) (hash_to_hb m h) bucket_size in
          subst
            (IsScanOrFull m h over (search (λ _. d) (λ _. examine) settle (λ _. over) h 33 0 []))
            (sym (find_record-hit _ examine over h q found))
            (search-round d examine over h settle steady same_record q found 33 0 [] (omega arith)
              (omega (arith, all_new)) (nothing-IsPassed d examine over h))
      | inr (inl (q, found)) ↦ inl (
          search-refused (λ _. d) (λ _. examine) settle (λ _. over) h 32 0 [] enodata (some q)
            (lookup_common-miss d h [] q found)
          ∙ sym (find_record-miss _ examine over h q found))
      | inr (inr found) ↦ inl (
          search-refused (λ _. d) (λ _. examine) settle (λ _. over) h 32 0 [] enospc none
            (lookup_common-no_space d h [] found)
          ∙ sym (find_record-no_space _ examine over h found))
    ]
