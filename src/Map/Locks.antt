-- ===== src/Map/Locks.antt =====
-- src/include/uDepot/lsa/udepot-map.hh: which locks guard the slots that an operation on a hash may
-- touch. A lock is its index in `locks_m`.
use u_depot.Base.{ℕ, ◌+◌, ◌-◌, ◌*◌, ◌/◌, min, Option, none, some, leb, ◌==◌, if◌then◌else◌, sub64}
use u_depot.HashEntry.{bucket_size}
use u_depot.Map.{Map, max_bucket_displace, hash_to_hb}

-- the farthest slot, past `first`, that an operation reaches
abbrev pub reach : ℕ
reach = bucket_size * (max_bucket_displace + 1)

-- the first lock: the bucket before the home slot is guarded too
abbrev pub first_lock : Map → ℕ → ℕ
first_lock m first =
    if leb bucket_size first
    then (first - bucket_size) / m.entry_per_lock_nr
    else first / m.entry_per_lock_nr

-- The second lock is taken where the reach passes the first lock's slots.
unfoldable pub lock_common : Map → ℕ → ℕ × Option ℕ
lock_common m h =
    let first = hash_to_hb m h in
    let last = min (first + reach) (sub64 (sub64 m.entry_nr bucket_size) 1) in
    let slb = first_lock m first in
    let last_slb = (slb + 1) * m.entry_per_lock_nr in
    (slb, if leb last_slb last then some (slb + 1) else none)

unfoldable pub hash_to_lock_range : Map → ℕ → ℕ × ℕ
hash_to_lock_range m h =
    let first = hash_to_hb m h in
    let last = min (first + reach) m.entry_nr in
    let slb = first_lock m first in
    let last_slb = (slb + 1) * m.entry_per_lock_nr in
    let end = if leb last_slb last then (slb + 2) * m.entry_per_lock_nr else last_slb in
    (slb * m.entry_per_lock_nr, min end m.entry_nr)

-- `refs` is the reference count of each lock: 0 where its slots have been copied already.
unfoldable pub locks_to_grow_range : Map → (ℕ → ℕ) → ℕ → Option ℕ → ℕ × ℕ
locks_to_grow_range m refs sl1 sl2 =
    let last1 = min ((sl1 + 1) * m.entry_per_lock_nr) m.entry_nr in
    let first1 = if refs sl1 == 0 then last1 else sl1 * m.entry_per_lock_nr in
    elim sl2 [
      | none ↦ (first1, last1)
      | some l ↦ (
        first1,
        if refs l == 0
            then (sl1 + 1) * m.entry_per_lock_nr
            else min ((sl1 + 2) * m.entry_per_lock_nr) m.entry_nr,
      )
    ]
