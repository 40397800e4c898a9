-- ===== src/Store/Erase.antt =====
-- src/uDepot/udepot-lsa.cc: `local_del_mbuff` and `del` of a store of its own, without a remote owner of
-- the key. The store is given as it is when the lock is held again behind the lookup.
use u_depot.Base.{ℕ, zero, suc, true, false, Option, none, some, List, [], ◌∷◌, take, drop, length}
use u_depot.Map.{at}
use u_depot.Directory.{hash_to_map}
use u_depot.Directory.Access.{remove_in}
use u_depot.Store.{
  Rc, done, enodata, enospc, eio, eagain, errno, out_of_fuel, Header, Env, prefix_size,
  kv_tot_grains_get, kv_tot_bytes_get, kv_raw_bytes_get,
}
use u_depot.Store.Search.{Search, refused, present, unfinished}
use u_depot.Store.Lookup.{lookup_mbuff_put}
use u_depot.Store.Write.{
  State, invalidate_grains, release_grains, call, kv_removed, is_pba_order_equal_to_total_order,
  local_put_mbuff_io, Attempt, Written, salsa_stream_get_id,
}

-- The writes of the tombstone, until one is not answered with EAGAIN; none when there is no
-- answer left.
unfoldable pub write_tombstone :
    Env → (h : ℕ) → List ℕ → List Attempt → State → Option (Written × List Attempt)
write_tombstone env h key [] s = none
write_tombstone env h key (a ∷ rest) s =
    let io : Written = local_put_mbuff_io env h (length key) key a s in
    elim io.rc [ eagain ↦ write_tombstone env h key rest io.state | rc ↦ some (io, rest) ]

-- The entry in slot `trgt` becomes a tombstone at `grain`, if that keeps the order of the writes.
unfoldable pub set_tombstone : Env → (h key_size trgt grain : ℕ) → Header → State → Rc × State
set_tombstone env h key_size trgt grain old_md s =
    let g = env.grain_size in
    let old_pba = (at (hash_to_map s.directory h) trgt).pba in
    let old_grains = kv_tot_grains_get g old_md.key_size old_md.val_size in
    let removed : State =
      kv_removed (kv_raw_bytes_get old_md.key_size old_md.val_size)
        (kv_tot_bytes_get g old_md.key_size old_md.val_size)
        (call (invalidate_grains old_pba old_grains false) s) in
    elim (is_pba_order_equal_to_total_order env old_pba grain old_md) [
      | false ↦ (eagain, s)
      | true ↦ (
        done,
        call
            (release_grains grain (kv_tot_grains_get g key_size 0) (salsa_stream_get_id env h)
              false)
            (record removed { directory = remove_in s.directory h trgt grain }),
      )
    ]

-- behind the write of the tombstone
unfoldable pub del_written : Env → (h key_size trgt : ℕ) → Header → Written → Rc × State
del_written env h key_size trgt old_md io = elim io.rc [
  | done ↦ elim io.grain [
    | some grain ↦ set_tombstone env h key_size trgt grain old_md io.state
    | none ↦ (out_of_fuel, io.state)
  ]
  | rc ↦ (rc, io.state)
]

-- The body of `local_del_mbuff` behind the lookup, with the answers that are left. The key of
-- the tombstone is what was read behind the header.
unfoldable pub del_found :
    Env → (h key_size : ℕ) → Search → List Attempt → State → Option ((Rc × State) × List Attempt)
del_found env h key_size (present trgt e old_md buf) attempts s =
    elim (write_tombstone env h (take key_size (drop prefix_size buf)) attempts s) [
      | none ↦ none
      | some (io, rest) ↦ some (del_written env h key_size trgt old_md io, rest)
    ]
del_found env h key_size unfinished attempts s = some ((out_of_fuel, s), attempts)
del_found env h key_size (refused enospc trgt) attempts s = some ((enodata, s), attempts)
del_found env h key_size (refused eio trgt) attempts s = some ((eio, s), attempts)
del_found env h key_size (refused enodata trgt) attempts s = some ((enodata, s), attempts)
-- ENOENT, where the code asserts that there is no other error
del_found env h key_size (refused rc trgt) attempts s = some ((errno 2, s), attempts)

unfoldable pub local_del_mbuff :
    Env → (h : ℕ) → List ℕ → List Attempt → State → Option ((Rc × State) × List Attempt)
local_del_mbuff env h key attempts s =
    del_found env h (length key) (lookup_mbuff_put env (λ _. s.directory) (λ _. s.device) h key)
      attempts s

-- `del`: another round for each EAGAIN, as far as the fuel goes
unfoldable pub del :
    Env → (h : ℕ) → List ℕ → (fuel : ℕ) → List Attempt → State → Option (Rc × State)
del env h key zero attempts s = none
del env h key (suc fuel) attempts s = elim (local_del_mbuff env h key attempts s) [
  | none ↦ none
  | some ((rc, s'), rest) ↦ elim rc [
    | eagain ↦ del env h key fuel rest s'
    | other ↦ some (other, s')
  ]
]
