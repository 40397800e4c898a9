-- ===== src/Store/Put.antt =====
-- src/uDepot/udepot-lsa.cc: `local_put_mbuff` and `put` of a store of its own, without a remote owner of
-- the key. `h` is the hash of the key.
use u_depot.Base.{
  ℕ, ◌-◌, ◌==◌, true, false, Option, none, some, List, [], ◌∷◌, take, length, if◌then◌else◌,
}
use u_depot.Map.{at}
use u_depot.Directory.{Directory, hash_to_map}
use u_depot.Directory.Access.{try_shift_in}
use u_depot.Store.{
  Rc, done, enodata, enospc, einval, eagain, ealready, out_of_fuel, Header, Env, kv_tot_grains_get,
}
use u_depot.Store.Search.{Search, refused, present, unfinished}
use u_depot.Store.Lookup.{lookup_mbuff_put}
use u_depot.Store.Write.{
  State, invalidate_grains, release_grains, drain_remaining_grains, call, set_mapping,
  is_pba_order_equal_to_total_order, local_put_mbuff_io, Attempt, Written, salsa_stream_get_id,
}

pub data PutOp : Type 0 where
  create : PutOp
  replace : PutOp
  normal : PutOp

-- The result of `local_put_mbuff`, the address of the entry that a retry has to follow, and the store.
pub record Put : Type 0 where
  pub rc : Rc
  pub old_pba : Option ℕ
  pub state : State

abbrev pub stop_with : Rc → State → Put
stop_with rc s = record { rc = rc; old_pba = none; state = s }

abbrev pub no_header : Header
no_header = record { key_size = 0; val_size = 0; timestamp = 0 }

-- a new entry in slot `trgt`; REPLACE wants an old one
unfoldable pub put_new : Env → (h key_size val_len grain : ℕ) → PutOp → (trgt : ℕ) → State → Put
put_new env h key_size val_len grain replace trgt s = stop_with einval s
put_new env h key_size val_len grain create trgt s =
    stop_with done (set_mapping env h trgt false key_size val_len grain no_header s)
put_new env h key_size val_len grain normal trgt s =
    stop_with done (set_mapping env h trgt false key_size val_len grain no_header s)

-- the entry of the key, in slot `trgt`, is changed if that keeps the order of the writes
unfoldable pub put_update : Env → (h key_size val_len grain trgt : ℕ) → Header → State → Put
put_update env h key_size val_len grain trgt old_md s =
    let old_pba = (at (hash_to_map s.directory h) trgt).pba in
    elim (is_pba_order_equal_to_total_order env old_pba grain old_md) [
      | true ↦ stop_with done (set_mapping env h trgt true key_size val_len grain old_md s)
      | false ↦ record { rc = ealready; old_pba = some old_pba; state = s }
    ]

unfoldable pub put_existing :
    Env → (h key_size val_len grain : ℕ) → PutOp → (trgt : ℕ) → Header → State → Put
put_existing env h key_size val_len grain create trgt old_md s = stop_with einval s
put_existing env h key_size val_len grain replace trgt old_md s =
    put_update env h key_size val_len grain trgt old_md s
put_existing env h key_size val_len grain normal trgt old_md s =
    put_update env h key_size val_len grain trgt old_md s

-- after `try_shift`
unfoldable pub put_shifted :
    Env → (h key_size val_len grain : ℕ) → PutOp → Option ℕ × Directory → State → Put
put_shifted env h key_size val_len grain op (none, d) s =
    stop_with enospc (record s { directory = d })
put_shifted env h key_size val_len grain op (some trgt, d) s =
    put_new env h key_size val_len grain op trgt (record s { directory = d })

-- The body of `local_put_mbuff` behind the lookup. It asserts a slot where ENODATA has none.
unfoldable pub put_found : Env → (h key_size val_len grain : ℕ) → PutOp → Search → State → Put
put_found env h key_size val_len grain op (present trgt e old_md buf) s =
    put_existing env h key_size val_len grain op trgt old_md s
put_found env h key_size val_len grain op unfinished s = stop_with out_of_fuel s
put_found env h key_size val_len grain op (refused enodata (some trgt)) s =
    put_new env h key_size val_len grain op trgt s
put_found env h key_size val_len grain op (refused enospc trgt) s =
    put_shifted env h key_size val_len grain op (try_shift_in s.directory h) s
put_found env h key_size val_len grain op (refused rc trgt) s = stop_with rc s

-- `local_put_mbuff`, when nothing else changes the store while it waits for the device
unfoldable pub local_put_mbuff : Env → (h key_size : ℕ) → List ℕ → (grain : ℕ) → PutOp → State → Put
local_put_mbuff env h key_size keyval grain op s =
    put_found env h key_size (length keyval - key_size) grain op
      (lookup_mbuff_put env (λ _. s.directory) (λ _. s.device) h (take key_size keyval)) s

-- what `grow` of the directory answers, and the directory that it leaves
pub record Grow : Type 0 where
  pub grow_rc : Rc
  pub grown : Directory

-- the last round: these results ask for another
unfoldable pub map_end : Put → Option Put
map_end r = elim r.rc [ enospc ↦ none | eagain ↦ none | rc ↦ some r ]

-- The loop that maps the record, one answer of `grow` for each further round; none when there
-- is no answer left.
unfoldable pub map_loop :
    Env → (h key_size : ℕ) → List ℕ → (grain : ℕ) → PutOp → List Grow → State → Option Put
map_loop env h key_size keyval grain op [] s =
    map_end (local_put_mbuff env h key_size keyval grain op s)
map_loop env h key_size keyval grain op (g ∷ rest) s =
    let r : Put = local_put_mbuff env h key_size keyval grain op s in
    let again =
      map_loop env h key_size keyval grain op rest (record r.state { directory = g.grown }) in
    elim r.rc [
      | enospc ↦ elim g.grow_rc [
        | done ↦ again
        | eagain ↦ again
        | rc ↦ some (record r { state = record r.state { directory = g.grown } })
      ]
      | eagain ↦ map_loop env h key_size keyval grain op rest r.state
      | rc ↦ some r
    ]

-- EALREADY drains the segment of the new grain if the old entry is in another one.
unfoldable pub drain_on_race : Env → (h grain : ℕ) → Put → State
drain_on_race env h grain r = elim r.old_pba [
  | none ↦ r.state
  | some old_pba ↦
      if env.grain_to_seg_idx old_pba == env.grain_to_seg_idx grain
      then r.state
      else call (drain_remaining_grains (salsa_stream_get_id env h)) r.state
]

-- Grains that were not mapped are invalidated, and all are released.
unfoldable pub release_written : Env → (h grain size_grains : ℕ) → Rc → State → State
release_written env h grain size_grains rc s =
    let released = call (release_grains grain size_grains (salsa_stream_get_id env h) false) in
    elim rc [
      | done ↦ released s
      | other ↦ released (call (invalidate_grains grain size_grains false) s)
    ]

-- behind the mapping; EALREADY asks for another write
unfoldable pub put_mapped :
    Env
    → (h grain size_grains : ℕ) → (State → Option (Rc × State))
    → Option Put
    → Option (Rc × State)
put_mapped env h grain size_grains again none = none
put_mapped env h grain size_grains again (some r) =
    let s' = release_written env h grain size_grains r.rc (drain_on_race env h grain r) in
    elim r.rc [ ealready ↦ again s' | rc ↦ some (rc, s') ]

-- behind the write; EAGAIN asks for another one
unfoldable pub put_written :
    Env
    → (h grain size_grains : ℕ) → (again : State → Option (Rc × State))
    → (mapped : State → Option Put) → Written
    → Option (Rc × State)
put_written env h grain size_grains again mapped io = elim io.rc [
  | eagain ↦ again io.state
  | done ↦ put_mapped env h grain size_grains again (mapped io.state)
  | rc ↦ some (rc, io.state)
]

-- `put`: each attempt at a write comes with what is answered to it; none when there is no
-- attempt left.
unfoldable pub put :
    Env
    → (h key_size : ℕ) → List ℕ
    → PutOp
    → List (Attempt × List Grow)
    → State
    → Option (Rc × State)
put env h key_size keyval op [] s = none
put env h key_size keyval op ((a, grows) ∷ rest) s =
    let size_grains = kv_tot_grains_get env.grain_size key_size (length keyval - key_size) in
    put_written env h a.grain size_grains (λ s'. put env h key_size keyval op rest s')
      (λ s'. map_loop env h key_size keyval a.grain op grows s')
      (local_put_mbuff_io env h key_size keyval a s)
