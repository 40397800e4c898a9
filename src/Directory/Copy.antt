-- ===== src/Directory/Copy.antt =====
-- The copy of an entry into a grown directory (udepot-directory-map.cc, step 3 of `grow`).
use u_depot.Base.{ℕ, ◌≤◌, ◌<◌, ◌≡◌, ◌∙◌, some, arith}
use u_depot.HashEntry.{unused_pba_entry, max_kv_size}
use u_depot.Map.{Map, hit, miss, at, lookup, insert}
use u_depot.Map.Insert.{lookup-insert}
use u_depot.Map.Keys.{IsSized}
use u_depot.Directory.{copy_entry}

-- An entry, of a positive size that its field holds and an address that a slot in use can hold,
-- for whose fingerprint the new table has a vacant slot, is found there after the copy, with
-- its address and its size, when that table has a power of two of home slots.
pub copy_entry-miss :
    (t : Map) (h q kv_size pba : ℕ)
    → IsSized t
    → lookup t h ≡ miss q
    → 0 < kv_size
    → kv_size ≤ max_kv_size
    → pba < unused_pba_entry
    → (t' : Map) × (copy_entry t h kv_size pba ≡ some t')
      × (lookup t' h ≡ hit q)
      × ((at t' q).pba ≡ pba)
      × ((at t' q).kv_size ≡ kv_size)
unfolding copy_entry
copy_entry-miss t h q kv_size pba s found some_size fits real =
    let (there, address, size) = lookup-insert t h q kv_size pba s found some_size real in
    (insert t q h kv_size pba, rw (found, copy_entry), there, address, size ∙ omega arith)
