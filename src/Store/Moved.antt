-- ===== src/Store/Moved.antt =====
-- A record that the garbage collection moves is found as before.
use u_depot.Base.{ℕ, ◌+◌, ◌-◌, ◌*◌, ◌^◌, ◌≤◌, ◌<◌, ◌≡◌, true, none, List, take, length}
use u_depot.HashEntry.{unused_pba_entry, max_kv_size}
use u_depot.Map.{Map}
use u_depot.Directory.{Directory}
use u_depot.Directory.Access.{update_inplace_in}
use u_depot.Store.{
  done, Header, Env, pwrite_full, suffix_size, encode_header, kv_tot_grains_get, le_bytes,
  io_alignment,
}
use u_depot.Store.Records.{record_bytes, IsStorable}
use u_depot.Store.Write.{State}
use u_depot.Store.Relocate.{Grains}

abbrev without_suffix : List ℕ → List ℕ
without_suffix payload = take (length payload - suffix_size) payload

module _ (env : Env) (md : Header) (key value tail : List ℕ) where
  abbrev unit : List ℕ
  unit = record_bytes md key value tail

  abbrev crc_at : ℕ → List ℕ
  crc_at grain =
      le_bytes 2 (env.checksum16 (env.get_seg_ts (env.grain_to_seg_idx grain)) (encode_header md))

-- What the move asks for is there, as for a put.
pub record IsMovable (env : Env) (s : State) (md : Header) (key value tail : List ℕ) (a : Grains)
    : Type 0 where
  pub storable :
      IsStorable env md key value (kv_tot_grains_get env.grain_size md.key_size md.val_size)
  pub checked : 2 ≤ length tail
  pub few : kv_tot_grains_get env.grain_size md.key_size md.val_size ≤ max_kv_size
  pub grain_pos : 0 < env.grain_size
  pub grain_small : env.grain_size < 2 ^ 32
  pub blocks : (units : ℕ) × (env.grain_size ≡ units * io_alignment env)
  pub given : a.allocated ≡ done
  pub real : a.grain < unused_pba_entry
  pub on_device :
      (a.grain + kv_tot_grains_get env.grain_size md.key_size md.val_size) * env.grain_size
      ≤ length s.device.bytes
  pub writes :
      s.device.write_fault
        (a.grain * env.grain_size)
        (length (record_bytes md key value (crc_at env md key value tail a.grain)))
      ≡ none
  pub reads :
      s.device.read_fault
        (a.grain * env.grain_size)
        (kv_tot_grains_get env.grain_size md.key_size md.val_size * env.grain_size)
      ≡ none
  pub buffers_given :
      env.buffers (kv_tot_grains_get env.grain_size md.key_size md.val_size * env.grain_size) ≡ true

module _ (env : Env) (s : State) (h q start relocb : ℕ) (md : Header) (key value tail : List ℕ)
    (a : Grains) (mv : IsMovable env s md key value tail a) where
  abbrev grains : ℕ
  grains = kv_tot_grains_get env.grain_size md.key_size md.val_size

  abbrev written : List ℕ
  written = record_bytes md key value (crc_at env md key value tail a.grain)

  -- the store with the record at its new place
  abbrev moved_state : State
  moved_state = record s {
    directory = update_inplace_in s.directory h q grains a.grain;
    device = pwrite_full s.device (a.grain * env.grain_size) written;
  }
