-- ===== src/Store/Tests.antt =====
-- A small store, with what the theorems say of it.
use u_depot.Base.{ℕ, ◌/◌, ◌≡◌, true, false, none, some, List, [], ◌∷◌, replicate, arith}
use u_depot.Directory.Tests.{three, stocked}
use u_depot.Store.{done, Header, Env, Device, le_bytes}
use u_depot.Store.Write.{State, Attempt}
use u_depot.Store.Relocate.{Grains, Relocated, gc_callback}
use u_depot.Store.GcEnds.{gc_callback-ends}

-- grains of 8 bytes, 16 of them in a segment
abbrev pub env : Env
env = record {
  grain_size = 8;
  buffers = λ _. true;
  grain_to_seg_idx = λ grain. grain / 16;
  streams_nr = 2;
  get_seg_ts = λ seg. 3;
  checksum16 = λ ts header. 7;
}

abbrev pub device : Device
device = record { bytes = replicate 384 0; read_fault = λ _ _. none; write_fault = λ _ _. none }

abbrev pub empty_store : State
empty_store = record {
  directory = three;
  device = device;
  calls = [];
  key_nr = 0;
  used_bytes = 0;
  total_bytes = 0;
}

abbrev pub key : List ℕ
key = 1 ∷ 2 ∷ []

abbrev value : List ℕ
value = 3 ∷ 4 ∷ 5 ∷ []

abbrev pub attempt : Attempt
attempt = record { allocated = done; grain = 2; md_space = true; padding_space = true }

abbrev md : Header
md = record { key_size = 2; val_size = 3; timestamp = 3 }

stocked_store : State
stocked_store = record empty_store { directory = stocked }

abbrev grains : Grains
grains = record { allocated = done; grain = 4 }

abbrev old_crc : List ℕ
old_crc = le_bytes 2 9

gc_callback-ends_example :
    (r : Relocated) × (gc_callback env (λ _. 5) (λ _. grains) (λ _. false) false 0 6 stocked_store
      ≡ some r)
gc_callback-ends_example =
    gc_callback-ends env (λ _. 5) (λ _. grains) (λ _. false) false 0 6 stocked_store (omega arith)
      (omega arith)
