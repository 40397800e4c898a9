-- ===== src/Store/Get.antt =====
-- src/uDepot/udepot-lsa.cc: `get` and `exists` of a store of its own, without a remote owner of the key,
-- and their workers `local_get_mbuff` and `local_exists_mbuff`.
use u_depot.Base.{ℕ, ◌+◌, ◌/◌, Bool, ◌&&◌, List, [], take, drop, length, leb, ltb, if◌then◌else◌}
use u_depot.Store.{Rc, done, assertion_failed, out_of_fuel, Header, Env, prefix_size}
use u_depot.HashEntry.{HashEntry}
use u_depot.Store.Search.{Search, refused, present, unfinished}
use u_depot.Store.Lookup.{lookup_mbuff, lookup_exists}
use u_depot.Store.Write.{State}

-- the result, and the value, or its size
pub record Got : Type 0 where
  pub rc : Rc
  pub value : List ℕ

pub record Exists : Type 0 where
  pub rc : Rc
  pub val_size : ℕ

-- `reslice`; its error is ignored, and leaves the bytes as they were
abbrev pub reslice_bytes : ℕ → ℕ → List ℕ → List ℕ
reslice_bytes len off buf = if leb (off + len) (length buf) then take len (drop off buf) else buf

-- The assertions on a record that was found: it has a value, and the grains of the entry were read.
unfoldable pub is_whole : Env → HashEntry → Header → List ℕ → Bool
is_whole env e md buf = ltb 0 md.val_size && leb e.kv_size (length buf / env.grain_size)

unfoldable pub get_found : Env → ℕ → Search → Got
get_found env key_size (present r e md buf) =
    if is_whole env e md buf
    then record { rc = done; value = reslice_bytes md.val_size (prefix_size + key_size) buf }
    else record { rc = assertion_failed; value = [] }
get_found env key_size (refused rc trgt) = record { rc = rc; value = [] }
get_found env key_size unfinished = record { rc = out_of_fuel; value = [] }

-- when nothing else changes the store meanwhile
unfoldable pub get : Env → ℕ → List ℕ → State → Got
get env h key s =
    get_found env (length key) (lookup_mbuff env (λ _. s.directory) (λ _. s.device) h key)

unfoldable pub exists_found : Search → Exists
exists_found (present r e md buf) = record { rc = done; val_size = md.val_size }
exists_found (refused rc trgt) = record { rc = rc; val_size = 0 }
exists_found unfinished = record { rc = out_of_fuel; val_size = 0 }

unfoldable pub exists : Env → ℕ → List ℕ → State → Exists
exists env h key s = exists_found (lookup_exists env (λ _. s.directory) (λ _. s.device) h key)
