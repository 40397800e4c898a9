-- ===== src/MbuffCache/Reuse.antt =====
-- What comes back from the cache of mbuff-cache.hh, and the space that mbuff-alloc.hh adds.
use native.Mathlib.Nat.{mod-eq_of_lt}
use u_depot.Base.{
  ℕ, ◌-◌, ◌*◌, ◌%◌, ◌^◌, ◌<◌, ◌≤◌, ◌≡◌, refl, Bool, inl, inr, Bool-cases, Option, some, List, [],
  ◌∷◌, ltb, leb, leb→le, ltb→lt, arith, length, get_or-set_self,
}
use u_depot.Util.{align_up, uceil_up, udiv_round_up}
use u_depot.Util.Rounding.{udiv_round_up_lem}
use u_depot.Mbuff.{Mbuff}
use u_depot.MbuffCache.{
  MbuffCache, caches_nr, cache_of, with_cache, empty_mbuff, mb_get, mb_put, mbuff_add_buffers,
}

cache_of-with_cache :
    (c : MbuffCache) (tid : ℕ) (q : List ℕ)
    → length c.thread_caches ≡ caches_nr
    → cache_of (with_cache c tid q) tid ≡ q
unfolding cache_of with_cache
cache_of-with_cache c tid q w = elim (Bool-cases (ltb tid caches_nr)) [
  | inl own ↦
      let lt : tid < length c.thread_caches = omega (arith, w, ltb→lt tid caches_nr own) in
      rw own (get_or-set_self c.thread_caches tid q [] lt)
  | inr other ↦ rw other refl
]

mb_get-cached :
    (c : MbuffCache) (tid mb : ℕ) (q : List ℕ) (room : Bool)
    → cache_of c tid ≡ mb ∷ q
    → (mb_get c tid room).0 ≡ some mb
unfolding mb_get
mb_get-cached c tid mb q room e = rw (mb_get, e) refl

-- The Mbuff that a thread puts into a cache that has a list for each private cache is the next
-- one that the thread gets.
pub mb_get-mb_put :
    (c : MbuffCache) (tid mb : ℕ) (room : Bool)
    → length c.thread_caches ≡ caches_nr
    → (mb_get (mb_put c tid mb) tid room).0 ≡ some mb
unfolding mb_put
mb_get-mb_put c tid mb room w =
    mb_get-cached (mb_put c tid mb) tid mb (cache_of (empty_mbuff c mb) tid) room
      (cache_of-with_cache (empty_mbuff c mb) tid (mb ∷ cache_of (empty_mbuff c mb) tid) w)

align_up-bounds : (n : ℕ) → n < 2 ^ 63 → n ≤ align_up n 4096
unfolding align_up uceil_up
align_up-bounds n h =
    let (lo, hi) = udiv_round_up_lem n 4096 (omega arith) (omega (arith, h)) in
    let e : 4096 * udiv_round_up n 4096 % 2 ^ 64 ≡ 4096 * udiv_round_up n 4096 =
      mod-eq_of_lt (omega (arith, hi, h)) in
    rw e (omega (arith, lo))

-- When the allocation gives a buffer of the size that it is asked for, the Mbuff has afterwards
-- at least the free space that was requested, if that is below 2 ^ 63.
pub mbuff_add_buffers_lem :
    (alloc : ℕ → Option (List ℕ)) (m : Mbuff) (s : ℕ) (buff : List ℕ)
    → s < 2 ^ 63
    → alloc (align_up (s - m.free_size) 4096) ≡ some buff
    → length buff ≡ align_up (s - m.free_size) 4096
    → s ≤ (mbuff_add_buffers alloc m s).free_size
unfolding mbuff_add_buffers
mbuff_add_buffers_lem alloc m s buff h given size = elim (Bool-cases (leb s m.free_size)) [
  | inl enough ↦ rw enough (leb→le s m.free_size enough)
  | inr short ↦
      rw (short, given) (omega (arith, size, align_up-bounds (s - m.free_size) (omega (arith, h))))
]
