-- ===== src/Store/Search.antt =====
-- src/uDepot/udepot-lsa.cc: the search of the lookups through the slots of one fingerprint. The lock
-- is given up while the device is read, so each round may see another directory: `dirs k` is
-- the one that is locked at the start of round `k`.
use u_depot.Base.{
  ℕ, zero, suc, ◌+◌, Bool, true, false, ◌&&◌, ◌||◌, Option, none, some, List, [], ◌∷◌, ◌==◌, length,
  ltb, if◌then◌else◌,
}
use u_depot.HashEntry.{HashEntry, bucket_size}
use u_depot.Map.{hit, miss, no_space, at}
use u_depot.Directory.{Directory, hash_to_map}
use u_depot.Directory.Access.{lookup_in, next_in}
use u_depot.Store.{Rc, enodata, enospc, assertion_failed, Header}

-- the loop of `visited_pba`
unfoldable pub was_visited : ℕ → List ℕ → Bool
was_visited pba [] = false
was_visited pba (v ∷ visited) = pba == v || was_visited pba visited

-- `none` is the assertion that fewer addresses were visited than a bucket has slots.
unfoldable pub visited_pba : ℕ → List ℕ → Option Bool
visited_pba pba visited =
    if ltb (length visited) bucket_size then some (was_visited pba visited) else none

-- update_visited_pba, with the assertion that visited_pba has made; the last visited stands first
unfoldable pub update_visited_pba : ℕ → List ℕ → List ℕ
update_visited_pba pba visited = pba ∷ visited

-- An error of `lookup` with the slot it gives, or the first slot that was not visited.
pub data Common : Type 0 where
  failed : Rc → Option ℕ → Common
  candidate : Option ℕ → Common

-- the loop of `lookup_common`; `next` goes on to a later slot of the bucket
unfoldable pub skip_visited : Directory → ℕ → List ℕ → ℕ → ℕ → Option ℕ
skip_visited d h visited zero q = none
skip_visited d h visited (suc n) q = elim (was_visited (at (hash_to_map d h) q).pba visited) [
  | false ↦ some q
  | true ↦ elim (next_in d (some q) h) [ none ↦ none | some r ↦ skip_visited d h visited n r ]
]

-- The assertion of `visited_pba` fails at the first slot or at none.
unfoldable pub lookup_common : Directory → ℕ → List ℕ → Common
lookup_common d h visited = elim (lookup_in d h) [
  | hit q ↦ elim (visited_pba (at (hash_to_map d h) q).pba visited) [
    | some seen ↦ candidate (skip_visited d h visited bucket_size q)
    | none ↦ failed assertion_failed none
  ]
  | miss q ↦ failed enodata (some q)
  | no_space ↦ failed enospc none
]

-- What the read of a record shows: an error, another key, or the key, with the header and the
-- bytes that were read.
pub data Seen : Type 0 where
  errored : Rc → Seen
  other : Seen
  matched : Header → List ℕ → Seen

-- How a search ends: with an error and the slot that goes with it, or with the slot of the key, the copy of its entry, the header and the bytes of the key's record.
pub data Search : Type 0 where
  refused : Rc → Option ℕ → Search
  present : ℕ → HashEntry → Header → List ℕ → Search
  unfinished : Search

-- `memcmp` of two entries
unfoldable pub same_entry : HashEntry → HashEntry → Bool
same_entry a b =
    (a.bucket_offset == b.bucket_offset && a.key_tag == b.key_tag)
    && (a.kv_size == b.kv_size && a.pba == b.pba)

-- The loop of the lookups: `examine k` reads the record of an entry in round `k`, and
-- `settle k` gives the slot of the entry when the lock is held again. `finish k` is what follows
-- when no slot is left in round `k`.
unfoldable pub search :
    (ℕ → Directory)
    → (ℕ → HashEntry → Seen)
    → (ℕ → ℕ → HashEntry → Option ℕ)
    → (ℕ → Search)
    → ℕ
    → (fuel round : ℕ) → List ℕ
    → Search
search dirs examine settle finish h zero round visited = unfinished
search dirs examine settle finish h (suc fuel) round visited =
    elim (lookup_common (dirs round) h visited) [
      | failed rc trgt ↦ refused rc trgt
      | candidate none ↦ finish round
      | candidate (some q) ↦
          let e : HashEntry = at (hash_to_map (dirs round) h) q in
          elim (examine round e) [
            | errored rc ↦ refused rc none
            | other ↦
                search dirs examine settle finish h fuel (round + 1)
                  (update_visited_pba e.pba visited)
            | matched md buf ↦ elim (settle round q e) [
              | some r ↦ present r e md buf
              | none ↦
                  search dirs examine settle finish h fuel (round + 1)
                    (update_visited_pba e.pba visited)
            ]
          ]
    ]
