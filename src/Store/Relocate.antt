-- ===== src/Store/Relocate.antt =====
-- src/uDepot/udepot-lsa.cc: the callbacks of the garbage collection, which move the records of a segment,
-- and the ones for memcache, which drop them. `start` is the grain of a record and `unit` the
-- bytes of the device from it on, the `gc_unit`.
use u_depot.Base.{
  ℕ, zero, suc, ◌+◌, ◌-◌, ◌*◌, Bool, true, false, not, ◌&&◌, ◌||◌, Option, none, some, List, ◌++◌,
  take, drop, length, low32, leb, ltb, ◌==◌,
}
use u_depot.HashEntry.{HashEntry, deleted}
use u_depot.Map.{at}
use u_depot.Directory.{hash_to_map}
use u_depot.Directory.Access.{lookup_pba_in, update_inplace_in, remove_in, purge_in}
use u_depot.Store.{
  Rc, done, eio, eagain, assertion_failed, Header, Env, ReadResult, got, fault, pread_full,
  pwrite_full, prefix_size, suffix_size, decode_header, kv_tot_grains_get, kv_tot_bytes_get,
  kv_raw_bytes_get, le_bytes,
}
use u_depot.Store.Write.{State, invalidate_grains, release_grains, call, kv_removed}

-- what Salsa answers to the request for grains
pub record Grains : Type 0 where
  pub allocated : Rc
  pub grain : ℕ

-- the result, the bytes that were given back, and the store
pub record Relocated : Type 0 where
  pub rc : Rc
  pub relocb : ℕ
  pub state : State

-- A tombstone is not moved: it is purged.
unfoldable pub purge_tombstone : Env → (h q size_grains relocb : ℕ) → State → Relocated
purge_tombstone env h q size_grains relocb s =
    let s' : State =
      call (invalidate_grains (at (hash_to_map s.directory h) q).pba size_grains true) s in
    record {
      rc = done;
      relocb = relocb + size_grains * env.grain_size;
      state = record s' { directory = purge_in s'.directory h q };
    }

-- the write of a moved record, and the change of its entry
unfoldable pub move_record : Env → (h q size_grains grain relocb : ℕ) → List ℕ → State → Relocated
move_record env h q size_grains grain relocb written s =
    let released = call (release_grains grain size_grains 0 true) in
    let old_pba = (at (hash_to_map s.directory h) q).pba in
    elim (s.device.write_fault (grain * env.grain_size) (length written)) [
      | some e ↦ record {
        rc = eio;
        relocb = relocb;
        state = released (call (invalidate_grains grain size_grains true) s);
      }
      | none ↦
          let moved : State = record s {
            directory = update_inplace_in s.directory h q size_grains grain;
            device = pwrite_full s.device (grain * env.grain_size) written;
          } in
          record {
            rc = done;
            relocb = relocb + size_grains * env.grain_size;
            state = call (invalidate_grains old_pba size_grains true) (released moved);
          }
    ]

-- The key, the value and the old checksum: mapped, or read behind the header.
unfoldable pub read_payload :
    Env → (mmap : Bool) → (start payload_size : ℕ) → List ℕ → State → ReadResult
read_payload env true start payload_size unit s = got (take payload_size (drop prefix_size unit))
read_payload env false start payload_size unit s =
    pread_full s.device (start * env.grain_size + prefix_size) payload_size

-- the record with its new checksum, which is made with the timestamp of its new segment
unfoldable pub moved_bytes : Env → (grain : ℕ) → (unit payload : List ℕ) → List ℕ
moved_bytes env grain unit payload =
    let header = take prefix_size unit in
    let timestamp = env.get_seg_ts (env.grain_to_seg_idx grain) in
    header
    ++ (take (length payload - suffix_size) payload ++ le_bytes 2 (env.checksum16 timestamp header))

unfoldable pub relocate :
    Env → Bool → Grains → (h q start size_grains relocb : ℕ) → Header → List ℕ → State → Relocated
relocate env mmap a h q start size_grains relocb md unit s =
    let payload_size = low32 (md.val_size + md.key_size) + suffix_size in
    elim (read_payload env mmap start payload_size unit s) [
      | fault rc ↦ record { rc = eio; relocb = relocb; state = s }
      | got payload ↦ elim a.allocated [
        | done ↦
            move_record env h q size_grains a.grain relocb (moved_bytes env a.grain unit payload) s
        | rc ↦ record { rc = rc; relocb = relocb; state = s }
      ]
    ]

-- `local_gc_callback` of a record with the header `md`; it asserts that the entry has no more
-- grains than the record
unfoldable pub gc_record :
    Env → Bool → Grains → (h start : ℕ) → Header → List ℕ → (relocb : ℕ) → State → Relocated
gc_record env mmap a h start md unit relocb s =
    let size_grains = kv_tot_grains_get env.grain_size md.key_size md.val_size in
    elim (lookup_pba_in s.directory h start) [
      | none ↦ record { rc = done; relocb = relocb; state = s }
      | some q ↦ elim (leb (at (hash_to_map s.directory h) q).kv_size size_grains) [
        | false ↦ record { rc = assertion_failed; relocb = relocb; state = s }
        | true ↦ elim (deleted (at (hash_to_map s.directory h) q)) [
          | true ↦ purge_tombstone env h q size_grains relocb s
          | false ↦ relocate env mmap a h q start size_grains relocb md unit s
        ]
      ]
    ]

unfoldable pub local_gc_callback :
    Env → Bool → Grains → (h start : ℕ) → List ℕ → (relocb : ℕ) → State → Relocated
local_gc_callback env mmap a h start unit relocb s =
    gc_record env mmap a h start (decode_header unit) unit relocb s

-- the callback for memcache: an entry in use is removed first
unfoldable pub local_gc_callback_mc :
    Env → (h start : ℕ) → List ℕ → (relocb : ℕ) → State → Relocated
local_gc_callback_mc env h start unit relocb s =
    let md : Header = decode_header unit in
    let g = env.grain_size in
    let size_grains = kv_tot_grains_get g md.key_size md.val_size in
    elim (lookup_pba_in s.directory h start) [
      | none ↦ record { rc = done; relocb = relocb; state = s }
      | some q ↦
          let e : HashEntry = at (hash_to_map s.directory h) q in
          elim (leb e.kv_size size_grains) [
            | false ↦ record { rc = assertion_failed; relocb = relocb; state = s }
            | true ↦ elim (deleted e) [
              | true ↦ purge_tombstone env h q size_grains relocb s
              | false ↦
                  let dropped : State =
                    kv_removed (kv_raw_bytes_get md.key_size md.val_size)
                      (kv_tot_bytes_get g md.key_size md.val_size) s in
                  purge_tombstone env h q size_grains relocb
                    (record dropped { directory = remove_in s.directory h q e.pba })
            ]
          ]
    ]

-- `0 == rc`
unfoldable pub is_done : Rc → Bool
is_done done = true
is_done other = false

-- The loop goes on behind a record if the callback had no error.
unfoldable pub gc_next : Relocated → Option Relocated → Option Relocated
gc_next r rest = elim (is_done r.rc) [ true ↦ rest | false ↦ some r ]

-- EAGAIN when the store shuts down
unfoldable pub gc_end : (exiting : Bool) → Option Relocated → Option Relocated
gc_end exiting none = none
gc_end exiting (some r) = elim (is_done r.rc && exiting) [
  | true ↦ some (record r { rc = eagain })
  | false ↦ some r
]

-- the header of the record that stands `off` bytes behind the region's first grain
unfoldable pub gc_header : Env → (first off : ℕ) → State → Header
gc_header env first off s = decode_header (drop (first * env.grain_size + off) s.device.bytes)

-- the record's callback, in the loop of `gc_callback`; `hash` is HashFn
unfoldable pub gc_step :
    Env → (hash : List ℕ → ℕ) → (ℕ → Grains) → (first grain off : ℕ) → Relocated → Relocated
gc_step env hash answers first grain off r =
    let unit = drop (first * env.grain_size + off) r.state.device.bytes in
    let h = hash (take (gc_header env first off r.state).key_size (drop prefix_size unit)) in
    local_gc_callback env true (answers grain) h grain unit r.relocb r.state

-- The loop stops at the end of the region, on `exit_gc_m`, at an empty header, which is the end
-- of the segment, and at a record that leaves the region.
unfoldable pub gc_stops : (exit_gc : Bool) → (last off : ℕ) → Header → Bool
gc_stops exit_gc last off md =
    not (ltb off last)
    || (exit_gc
        || ((md.key_size == 0 && md.val_size == 0) || ltb last (off + md.val_size + md.key_size)))

-- The loop of `gc_callback` over the mapped region, at `off` bytes behind its first grain. What
-- Salsa answers, and whether `exit_gc_m` is set, is given for each grain. The step behind a record
-- is by the header that the region, a shared mapping, shows when the callback is done.
unfoldable pub gc_loop :
    Env
    → (hash : List ℕ → ℕ) → (ℕ → Grains)
    → (ℕ → Bool)
    → (first gc_size : ℕ) → (fuel grain off : ℕ) → Relocated
    → Option Relocated
gc_loop env hash answers exits first gc_size zero grain off r = none
gc_loop env hash answers exits first gc_size (suc fuel) grain off r =
    let md : Header = gc_header env first off r.state in
    let r' : Relocated = gc_step env hash answers first grain off r in
    let md' : Header = gc_header env first off r'.state in
    elim (gc_stops (exits grain) (gc_size - prefix_size) off md) [
      | true ↦ some r
      | false ↦ gc_next r' (
          gc_loop env hash answers exits first gc_size fuel
            (grain + kv_tot_grains_get env.grain_size md'.key_size md'.val_size)
            (off + kv_tot_bytes_get env.grain_size md'.key_size md'.val_size) r')
    ]

-- `gc_callback` where the region can be mapped; `exiting` is `exit_gc_m` behind the loop. The
-- fuel is the size of the region, of which each round passes a byte or more.
unfoldable pub gc_callback :
    Env
    → (hash : List ℕ → ℕ) → (ℕ → Grains)
    → (ℕ → Bool)
    → (exiting : Bool) → (grain_start grain_nr : ℕ) → State
    → Option Relocated
gc_callback env hash answers exits exiting grain_start grain_nr s = gc_end exiting (
    gc_loop env hash answers exits grain_start (grain_nr * env.grain_size)
      (grain_nr * env.grain_size + 1) grain_start 0 (record { rc = done; relocb = 0; state = s }))
