-- ===== src/MbuffCache.antt =====
-- src/include/uDepot/mbuff-cache.hh, src/include/uDepot/mbuff-alloc.hh and src/include/util/inline-cache.hh:
-- the caches of Mbuffs and of their nodes, and the allocation of buffers.
pub mod Reuse
use u_depot.Base.{
  ℕ, zero, suc, ◌+◌, ◌-◌, ◌<◌, Bool, true, false, Option, none, some, List, [], ◌∷◌, ◌++◌, ltb, leb,
  if◌then◌else◌, get_or, set, length,
}
use u_depot.Util.{align_up}
use u_depot.Mbuff.{Mbuff, new_mbuff, add_buff}
use u_depot.Mbuff.Reslice.{reslice}

-- N
abbrev pub caches_nr : ℕ
caches_nr = 128

-- An `Mbuff *` is an index in `mbuffs`, which is `mbuff_cache_m`.
pub record MbuffCache : Type 0 where
  pub mbuffs : List Mbuff
  pub thread_caches : List (List ℕ)
  pub shared_cache : List ℕ

-- the private cache of a thread, or the shared one
unfoldable pub cache_of : MbuffCache → ℕ → List ℕ
cache_of c tid = if ltb tid caches_nr then get_or c.thread_caches tid [] else c.shared_cache

unfoldable pub with_cache : MbuffCache → ℕ → List ℕ → MbuffCache
with_cache c tid q =
    if ltb tid caches_nr
    then record c { thread_caches = set c.thread_caches tid q }
    else record c { shared_cache = q }

-- `room` says whether the new Mbuff is allocated; `none` is the null pointer.
unfoldable pub mb_alloc : MbuffCache → Bool → Option ℕ × MbuffCache
mb_alloc c room =
    if room
    then (some (length c.mbuffs), record c { mbuffs = c.mbuffs ++ new_mbuff ∷ [] })
    else (none, c)

unfoldable pub mb_get : MbuffCache → ℕ → Bool → Option ℕ × MbuffCache
mb_get c tid room = elim (cache_of c tid) [
  | [] ↦ mb_alloc c room
  | mb ∷ q ↦ (some mb, with_cache c tid q)
]

-- `reslice(0)`, whose result is not tested
abbrev pub emptied : Option Mbuff → Mbuff → Mbuff
emptied none m = m
emptied (some m') m = m'

abbrev pub empty_mbuff : MbuffCache → ℕ → MbuffCache
empty_mbuff c mb =
    let m = get_or c.mbuffs mb new_mbuff in
    record c { mbuffs = set c.mbuffs mb (emptied (reslice m 0 0) m) }

unfoldable pub mb_put : MbuffCache → ℕ → ℕ → MbuffCache
mb_put c tid mb = let c' = empty_mbuff c mb in with_cache c' tid (mb ∷ cache_of c' tid)

-- `alloc` is `IO::alloc_iobuff`: a buffer, or `none` when the memory is short.
unfoldable pub mbuff_add_buffers : (ℕ → Option (List ℕ)) → Mbuff → ℕ → Mbuff
mbuff_add_buffers alloc mb new_free_size =
    if leb new_free_size mb.free_size
    then mb
    else elim (alloc (align_up (new_free_size - mb.free_size) 4096)) [
      | none ↦ mb
      | some buff ↦ add_buff mb buff
    ]

unfoldable pub mbuff_alloc : (ℕ → Option (List ℕ)) → ℕ → Mbuff
mbuff_alloc alloc size = mbuff_add_buffers alloc new_mbuff size

-- An object of the inline array or of the heap, with its number there.
pub data Object : Type 0 where
  inline_object : ℕ → Object
  heap_object : ℕ → Object

pub record InlineObjCache : Type 0 where
  pub inline_allocated : ℕ
  pub free_objects : List Object
  pub heap_allocated : ℕ

-- `fresh` is the address that `new` gives, and `size` is the length of the inline array.
unfoldable pub object_get : ℕ → ℕ → InlineObjCache → Object × InlineObjCache
object_get size fresh c = elim c.free_objects [
  | o ∷ rest ↦ (o, record c { free_objects = rest })
  | [] ↦
      if ltb c.inline_allocated size
      then (
        inline_object c.inline_allocated,
        record c { inline_allocated = c.inline_allocated + 1 },
      )
      else (heap_object fresh, record c { heap_allocated = c.heap_allocated + 1 })
]

abbrev pub object_put : Object → InlineObjCache → InlineObjCache
object_put o c = record c { free_objects = o ∷ c.free_objects }

-- the loop of `reset`
unfoldable pub reset_loop : List Object → InlineObjCache → InlineObjCache
reset_loop [] c = record c { free_objects = [] }
reset_loop (inline_object i ∷ os) c =
    reset_loop os (record c { inline_allocated = c.inline_allocated - 1 })
reset_loop (heap_object i ∷ os) c =
    reset_loop os (record c { heap_allocated = c.heap_allocated - 1 })

unfoldable pub object_reset : InlineObjCache → InlineObjCache
object_reset c = reset_loop c.free_objects c
