-- ===== src/Store/Write.antt =====
-- src/uDepot/udepot-lsa.cc: the state of the store, `set_mapping`, and `local_put_mbuff_io`, which
-- writes a record.
use u_depot.Base.{
  ℕ, ◌+◌, ◌-◌, ◌*◌, ◌%◌, ◌^◌, Bool, true, false, Option, none, some, List, ◌∷◌, ◌++◌, ltb, ◌==◌,
  length, replicate, if◌then◌else◌, sub64,
}
use u_depot.Util.{udiv_round_up}
use u_depot.HashEntry.{HashEntry, deleted}
use u_depot.Map.{at}
use u_depot.Directory.{Directory, hash_to_map}
use u_depot.Directory.Access.{insert_in, update_inplace_in}
use u_depot.Store.{
  Rc, done, enomem, einval, Header, Env, Device, pwrite_full, prefix_size, suffix_size,
  encode_header, kv_tot_grains_get, kv_tot_bytes_get, kv_raw_bytes_get, le_bytes,
}

-- The calls of Salsa that have no result.
pub data SalsaCall : Type 0 where
  invalidate_grains : (grain grain_nr : ℕ) → (gc : Bool) → SalsaCall
  release_grains : (grain grain_nr stream : ℕ) → (gc : Bool) → SalsaCall
  drain_remaining_grains : (stream : ℕ) → SalsaCall

-- uDepotSalsa: the directory, the device, the calls of Salsa, the last first, and its counts
pub record State : Type 0 where
  pub directory : Directory
  pub device : Device
  pub calls : List SalsaCall
  pub key_nr : ℕ
  pub used_bytes : ℕ
  pub total_bytes : ℕ

unfoldable pub call : SalsaCall → State → State
call c s = record s { calls = c ∷ s.calls }

unfoldable pub call_if : Bool → SalsaCall → State → State
call_if test c s = record s { calls = if test then c ∷ s.calls else s.calls }

unfoldable pub kv_added : ℕ → ℕ → State → State
kv_added kv_bytes bytes s = record s {
  key_nr = (s.key_nr + 1) % 2 ^ 64;
  used_bytes = (s.used_bytes + kv_bytes) % 2 ^ 64;
  total_bytes = (s.total_bytes + bytes) % 2 ^ 64;
}

unfoldable pub kv_removed : ℕ → ℕ → State → State
kv_removed kv_bytes bytes s = record s {
  key_nr = sub64 s.key_nr 1;
  used_bytes = sub64 s.used_bytes kv_bytes;
  total_bytes = sub64 s.total_bytes bytes;
}

unfoldable pub is_pba_order_equal_to_total_order : Env → ℕ → ℕ → Header → Bool
is_pba_order_equal_to_total_order env old_pba new_pba old_md =
    let old_seg_idx = env.grain_to_seg_idx old_pba in
    let new_seg_idx = env.grain_to_seg_idx new_pba in
    if old_seg_idx == new_seg_idx
    then ltb old_pba new_pba
    else ltb old_md.timestamp (env.get_seg_ts new_seg_idx)

-- `update` is true to change the entry of the key, and false to insert one in slot `trgt`.
unfoldable pub set_mapping : Env → ℕ → ℕ → Bool → (key_len val_len : ℕ) → ℕ → Header → State → State
set_mapping env h trgt update key_len val_len pba old_md s =
    let g = env.grain_size in
    let e : HashEntry = at (hash_to_map s.directory h) trgt in
    let old_grains = kv_tot_grains_get g old_md.key_size old_md.val_size in
    let old_tot = kv_tot_bytes_get g old_md.key_size old_md.val_size in
    let old_raw = kv_raw_bytes_get old_md.key_size old_md.val_size in
    let grains = kv_tot_grains_get g key_len val_len in
    let updated = kv_removed old_raw old_tot (call (invalidate_grains e.pba old_grains false) s) in
    let inserted = call_if (deleted e) (invalidate_grains e.pba old_grains false) s in
    let mapped : State = elim update [
      | true ↦ record updated { directory = update_inplace_in s.directory h trgt grains pba }
      | false ↦ record inserted { directory = insert_in s.directory h trgt grains pba }
    ] in
    kv_added (kv_raw_bytes_get key_len val_len) (kv_tot_bytes_get g key_len val_len) mapped

-- the header of a new record, in the segment of its grain; the u16 and the u32 are cut
unfoldable pub md_base : Env → ℕ → ℕ → ℕ → Header
md_base env key_size val_size grain = record {
  key_size = key_size % 2 ^ 16;
  val_size = val_size % 2 ^ 32;
  timestamp = env.get_seg_ts (env.grain_to_seg_idx grain);
}

-- mbuff_prepend_append_md, in buffers that have the space for the header and the checksum
unfoldable pub mbuff_prepend_append_md : Env → ℕ → List ℕ → ℕ → List ℕ
mbuff_prepend_append_md env key_size keyval grain =
    let md : Header = md_base env key_size (length keyval - key_size) grain in
    let bytes = encode_header md in
    bytes ++ (keyval ++ le_bytes 2 (env.checksum16 md.timestamp bytes))

abbrev pub mbuff_append_padding : ℕ → List ℕ → List ℕ
mbuff_append_padding padding keyval = keyval ++ replicate padding 0

-- what Salsa answers to the request for grains, and whether the buffers have space for the
-- header and the checksum, and for the padding
pub record Attempt : Type 0 where
  pub allocated : Rc
  pub grain : ℕ
  pub md_space : Bool
  pub padding_space : Bool

abbrev pub salsa_stream_get_id : Env → ℕ → ℕ
salsa_stream_get_id env h = h % env.streams_nr

-- after a failure behind the allocation
unfoldable pub give_back : Env → (h grain grain_nr : ℕ) → State → State
give_back env h grain grain_nr s =
    call (release_grains grain grain_nr (salsa_stream_get_id env h) false)
      (call (invalidate_grains grain grain_nr false) s)

-- The result with the grain, when there is one, and the store after it.
pub record Written : Type 0 where
  pub rc : Rc
  pub grain : Option ℕ
  pub state : State

unfoldable pub write_record : Env → (h grain grains : ℕ) → List ℕ → State → Written
write_record env h grain grains written s =
    elim (s.device.write_fault (grain * env.grain_size) (length written)) [
      | some rc ↦ record { rc = rc; grain = some grain; state = give_back env h grain grains s }
      | none ↦ record {
        rc = done;
        grain = some grain;
        state = record s { device = pwrite_full s.device (grain * env.grain_size) written };
      }
    ]

unfoldable pub local_put_mbuff_io : Env → (h key_size : ℕ) → List ℕ → Attempt → State → Written
local_put_mbuff_io env h key_size keyval a s =
    let io_size = length keyval + prefix_size + suffix_size in
    let grains = udiv_round_up io_size env.grain_size in
    let with_md = mbuff_prepend_append_md env key_size keyval a.grain in
    let padding = grains * env.grain_size - io_size in
    elim a.allocated [
      | done ↦ elim a.md_space [
        | false ↦ record { rc = einval; grain = none; state = give_back env h a.grain grains s }
        | true ↦ elim a.padding_space [
          | false ↦ record { rc = enomem; grain = none; state = give_back env h a.grain grains s }
          | true ↦ write_record env h a.grain grains (mbuff_append_padding padding with_md) s
        ]
      ]
      | rc ↦ record { rc = rc; grain = none; state = s }
    ]
