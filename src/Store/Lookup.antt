-- ===== src/Store/Lookup.antt =====
-- src/uDepot/udepot-lsa.cc: `lookup_mbuff`, `lookup_exists` and `lookup_mbuff_put`. The store is seen
-- through the directories and devices of the rounds; a slot is an index in the current table.
use u_depot.Base.{
  ℕ, suc, ◌+◌, ◌*◌, Bool, true, false, ◌&&◌, Option, none, some, List, [], ◌∷◌, ◌==◌, take, drop,
  length,
}
use u_depot.HashEntry.{HashEntry}
use u_depot.Map.{at}
use u_depot.Directory.{Directory, hash_to_map}
use u_depot.Directory.Access.{next_free_in, lookup_pba_in}
use u_depot.Store.{
  Rc, enodata, enospc, enomem, eio, Header, Env, Device, ReadResult, got, fault, pread_full,
  prefix_size, decode_header, kv_tot_grains_get, aligned,
}
use u_depot.Store.Search.{Seen, errored, other, matched, Search, refused, search, same_entry}

unfoldable pub equal_bytes : List ℕ → List ℕ → Bool
equal_bytes [] [] = true
equal_bytes [] (y ∷ ys) = false
equal_bytes (x ∷ xs) [] = false
equal_bytes (x ∷ xs) (y ∷ ys) = x == y && equal_bytes xs ys

-- the header's size of the key, and `mem_compare` of the key with what is behind the header
unfoldable pub is_match : List ℕ → List ℕ → Bool
is_match key buf =
    (decode_header buf).key_size == length key
    && equal_bytes key (take (length key) (drop prefix_size buf))

-- a read into the buffers; an error of the device is reported as `failure` of it
unfoldable pub read_record : Env → Device → (Rc → Rc) → ℕ → ℕ → ReadResult
read_record env dev failure offset size = elim (env.buffers size) [
  | false ↦ fault enomem
  | true ↦ elim (pread_full dev offset size) [ fault rc ↦ fault (failure rc) | got buf ↦ got buf ]
]

-- the second read, when the size in the table is not that of the record
unfoldable pub read_whole : Env → Device → HashEntry → List ℕ → Seen
read_whole env dev e buf =
    let md : Header = decode_header buf in
    let grains = kv_tot_grains_get env.grain_size md.key_size md.val_size in
    elim (e.kv_size * env.grain_size == env.grain_size * grains) [
      | true ↦ matched md buf
      | false ↦
          elim (read_record env dev (λ _. eio) (e.pba * env.grain_size)
            (aligned env (grains * env.grain_size))) [
              | fault rc ↦ errored rc
              | got buf' ↦ matched md buf'
            ]
    ]

-- what a round of `lookup_mbuff` reads of an entry
unfoldable pub examine_value : Env → List ℕ → Device → HashEntry → Seen
examine_value env key dev e =
    elim (read_record env dev (λ _. eio) (e.pba * env.grain_size)
      (aligned env (e.kv_size * env.grain_size))) [
        | fault rc ↦ errored rc
        | got buf ↦ elim (is_match key buf) [ false ↦ other | true ↦ read_whole env dev e buf ]
      ]

-- what is read of the header and the key of the record at an address
unfoldable pub examine_at : Env → List ℕ → (Rc → Rc) → Device → ℕ → Seen
examine_at env key failure dev pba =
    elim (read_record env dev failure (pba * env.grain_size)
      (aligned env (prefix_size + length key))) [
        | fault rc ↦ errored rc
        | got buf ↦ elim (is_match key buf) [
          | false ↦ other
          | true ↦ matched (decode_header buf) buf
        ]
      ]

-- what a round of `lookup_exists`, and with another error one of `lookup_mbuff_put`, reads
abbrev pub examine_head : Env → List ℕ → (Rc → Rc) → Device → HashEntry → Seen
examine_head env key failure dev e = examine_at env key failure dev e.pba

-- 32 addresses can be visited; the round behind them ends in an assertion, or at no entry at all.
abbrev pub search_fuel : ℕ
search_fuel = 33

abbrev pub in_place : ℕ → ℕ → HashEntry → Option ℕ
in_place round q e = some q

unfoldable pub lookup_mbuff : Env → (ℕ → Directory) → (ℕ → Device) → ℕ → List ℕ → Search
lookup_mbuff env dirs devs h key =
    search dirs (λ k. examine_value env key (devs k)) in_place (λ _. refused enodata none) h
      search_fuel 0 []

unfoldable pub lookup_exists : Env → (ℕ → Directory) → (ℕ → Device) → ℕ → List ℕ → Search
lookup_exists env dirs devs h key =
    search dirs (λ k. examine_head env key (λ _. eio) (devs k)) in_place (λ _. refused enodata none)
      h search_fuel 0 []

-- The entry in the slot when the lock is held again, or the slot that it has moved to.
unfoldable pub settle_put : (ℕ → Directory) → ℕ → ℕ → ℕ → HashEntry → Option ℕ
settle_put dirs h round q e = elim (same_entry (at (hash_to_map (dirs (suc round)) h) q) e) [
  | true ↦ some q
  | false ↦ lookup_pba_in (dirs (suc round)) h e.pba
]

-- `next_free` at the end of the search
unfoldable pub finish_put : (ℕ → Directory) → ℕ → ℕ → Search
finish_put dirs h round = elim (next_free_in (dirs round) h) [
  | none ↦ refused enospc none
  | some q ↦ refused enodata (some q)
]

unfoldable pub lookup_mbuff_put : Env → (ℕ → Directory) → (ℕ → Device) → ℕ → List ℕ → Search
lookup_mbuff_put env dirs devs h key =
    search dirs (λ k. examine_head env key (λ rc. rc) (devs k)) (settle_put dirs h)
      (finish_put dirs h) h search_fuel 0 []
