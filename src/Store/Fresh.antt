-- ===== src/Store/Fresh.antt =====
-- A put of a key that the directory does not know, and the get that follows it.
use u_depot.Base.{
  ℕ, ◌+◌, ◌-◌, ◌*◌, ◌^◌, ◌≤◌, ◌<◌, ◌≡◌, true, false, none, List, ◌++◌, length, replicate,
}
use u_depot.Util.{udiv_round_up}
use u_depot.HashEntry.{max_kv_size}
use u_depot.Map.{Map}
use u_depot.Directory.{Directory}
use u_depot.Store.{
  done, Header, Env, pwrite_full, prefix_size, suffix_size, encode_header, kv_tot_grains_get,
  le_bytes, io_alignment,
}
use u_depot.Store.Records.{record_bytes}
use u_depot.Store.Write.{State, Attempt, md_base, set_mapping}
use u_depot.Store.Put.{no_header}

module _ (env : Env) (s : State) (h : ℕ) (key value : List ℕ) (a : Attempt) where
  abbrev keyval : List ℕ
  keyval = key ++ value

  abbrev io_size : ℕ
  io_size = length keyval + prefix_size + suffix_size

  abbrev grains : ℕ
  grains = udiv_round_up io_size env.grain_size

  abbrev md : Header
  md = md_base env (length key) (length keyval - length key) a.grain

  abbrev tail : List ℕ
  tail =
      le_bytes 2 (env.checksum16 md.timestamp (encode_header md))
      ++ replicate (grains * env.grain_size - io_size) 0

  abbrev stored : List ℕ
  stored = record_bytes md key value tail

  abbrev after_write : State
  after_write = record s { device = pwrite_full s.device (a.grain * env.grain_size) stored }

  -- the grains of the record
  abbrev pub grains_of : ℕ
  grains_of = kv_tot_grains_get env.grain_size (length key) (length value)

  -- What the put and the get ask for is there: the grains, in the bounds of the device, the
  -- buffers, and a device without errors.
  pub record IsGranted : Type 0 where
    pub given : a.allocated ≡ done
    pub md_room : a.md_space ≡ true
    pub padding_room : a.padding_space ≡ true
    pub on_device : (a.grain + grains_of) * env.grain_size ≤ length s.device.bytes
    pub writes : s.device.write_fault (a.grain * env.grain_size) (grains_of * env.grain_size) ≡ none
    pub reads : s.device.read_fault (a.grain * env.grain_size) (grains_of * env.grain_size) ≡ none
    pub buffers_given : env.buffers (grains_of * env.grain_size) ≡ true

  -- The sizes are in the bounds of their fields, and grains are whole blocks of the device.
  pub record IsSmall : Type 0 where
    pub key_small : length key < 2 ^ 16
    pub record_small : length key + length value < 2 ^ 32
    pub grain_pos : 0 < env.grain_size
    pub grain_small : env.grain_size < 2 ^ 32
    pub blocks : (units : ℕ) × (env.grain_size ≡ units * io_alignment env)
    pub grains_small : grains_of ≤ max_kv_size
    pub ts_small : (n : ℕ) → env.get_seg_ts n < 2 ^ 64

  abbrev after_map : ℕ → State
  after_map q =
      set_mapping env h q false (length key) (length keyval - length key) a.grain no_header
        after_write
