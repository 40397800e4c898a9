-- ===== src/Store.antt =====
-- src/uDepot/udepot-lsa.cc, src/include/uDepot/udepot-lsa.hh and src/include/uDepot/lsa/store.hh: the
-- store of keys and values. What stands before a key on the device, the sizes of a record, and
-- what the operations read and write. An Mbuff is here the list of the bytes it holds.
pub mod Bytes
pub mod Elsewhere
pub mod Search
pub mod Scan
pub mod Unvisited
pub mod SearchFinds
pub mod Lookup
pub mod LookupFinds
pub mod Write
pub mod Put
pub mod Get
pub mod Records
pub mod GetFinds
pub mod Relocate
pub mod Erase
pub mod Moved
pub mod GcEnds
pub mod Fresh
pub mod Tests
use u_depot.Base.{
  ℕ, zero, suc, ◌+◌, ◌*◌, ◌/◌, ◌%◌, Bool, Option, none, some, List, [], ◌∷◌, ◌++◌, take, drop,
  length, min, leb, if◌then◌else◌, low32,
}
use u_depot.Util.{udiv_round_up, align_up}

-- The results of the operations; `done` is 0.
pub data Rc : Type 0 where
  done : Rc
  enodata : Rc
  eexist : Rc
  enospc : Rc
  enomem : Rc
  eio : Rc
  einval : Rc
  eagain : Rc
  ealready : Rc
  -- another error of the device or of the allocator
  errno : ℕ → Rc
  -- an assertion of the code does not hold
  assertion_failed : Rc
  -- the fuel of a search was used up
  out_of_fuel : Rc

-- uDepotSalsaStoreHeader
pub record Header : Type 0 where
  pub key_size : ℕ
  pub val_size : ℕ
  pub timestamp : ℕ

-- The `n` bytes of a number, the lowest first.
abbrev pub le_bytes : ℕ → ℕ → List ℕ
le_bytes zero v = []
le_bytes (suc n) v = (v % 256) ∷ le_bytes n (v / 256)

abbrev pub le_value : List ℕ → ℕ
le_value [] = 0
le_value (b ∷ rest) = b + 256 * le_value rest

-- sizeof(uDepotSalsaStore)
abbrev pub prefix_size : ℕ
prefix_size = 14

-- sizeof(uDepotSalsaStoreSuffix)
abbrev pub suffix_size : ℕ
suffix_size = 2

-- the packed fields: a u16, a u32 and a u64
unfoldable pub encode_header : Header → List ℕ
encode_header md = le_bytes 2 md.key_size ++ (le_bytes 4 md.val_size ++ le_bytes 8 md.timestamp)

unfoldable pub decode_header : List ℕ → Header
decode_header bs = record {
  key_size = le_value (take 2 bs);
  val_size = le_value (take 4 (drop 2 bs));
  timestamp = le_value (take 8 (drop 6 bs));
}

-- The sizes are u32, and so is their sum.
unfoldable pub kv_raw_bytes_get : ℕ → ℕ → ℕ
kv_raw_bytes_get key_size val_size = low32 (low32 val_size + low32 key_size)

unfoldable pub kv_tot_raw_bytes_get : ℕ → ℕ → ℕ
kv_tot_raw_bytes_get key_size val_size =
    low32 (low32 val_size + low32 key_size) + prefix_size + suffix_size

unfoldable pub kv_tot_grains_get : ℕ → ℕ → ℕ → ℕ
kv_tot_grains_get grain_size key_size val_size =
    udiv_round_up (low32 (low32 val_size + low32 key_size) + prefix_size + suffix_size) grain_size

unfoldable pub kv_tot_bytes_get : ℕ → ℕ → ℕ → ℕ
kv_tot_bytes_get grain_size key_size val_size =
    grain_size * kv_tot_grains_get grain_size key_size val_size

-- What the store is given: the size of a grain, which sizes of buffers can be had, Salsa's
-- segment of a grain and its number of streams, the metadata's timestamp of a segment, and its
-- checksum of a header.
pub record Env : Type 0 where
  pub grain_size : ℕ
  pub buffers : ℕ → Bool
  pub grain_to_seg_idx : ℕ → ℕ
  pub streams_nr : ℕ
  pub get_seg_ts : ℕ → ℕ
  pub checksum16 : ℕ → List ℕ → ℕ

-- The device: its bytes, and which accesses at an offset, of a size, fail, and how.
pub record Device : Type 0 where
  pub bytes : List ℕ
  pub read_fault : ℕ → ℕ → Option Rc
  pub write_fault : ℕ → ℕ → Option Rc

pub data ReadResult : Type 0 where
  got : List ℕ → ReadResult
  fault : Rc → ReadResult

-- io_pread_mbuff_append_full: all the bytes, or an error; at the end of the device it is ENODATA
unfoldable pub pread_full : Device → ℕ → ℕ → ReadResult
pread_full dev offset size = elim (dev.read_fault offset size) [
  | some rc ↦ fault rc
  | none ↦
      if leb (offset + size) (length dev.bytes)
      then got (take size (drop offset dev.bytes))
      else fault enodata
]

-- io_pwrite_mbuff_full, without an error of the device
unfoldable pub pwrite_full : Device → ℕ → List ℕ → Device
pwrite_full dev offset written = record dev {
  bytes = take offset dev.bytes ++ (written ++ drop (offset + length written) dev.bytes);
}

abbrev pub io_alignment : Env → ℕ
io_alignment env = min 512 env.grain_size

abbrev pub aligned : Env → ℕ → ℕ
aligned env size = align_up size (io_alignment env)
