-- ===== src/KvConf/Segments.antt =====
-- src/uDepot/kv-conf.cc and src/uDepot/udepot-lsa.cc: the search for a smaller size of segments ends, with
-- a smaller size.
use u_depot.Base.{
  ℕ, zero, suc, ◌-◌, ◌*◌, ◌/◌, ◌%◌, ◌^◌, max, ◌<◌, ◌≤◌, ◌≡◌, refl, Bool, true, false, Bool-cases,
  inl, inr, ◌⊎◌, ltb, ltb→lt, ◌==◌, none, some, if◌then◌else◌, sub64, arith,
}
use u_depot.Util.{align_down}
use u_depot.Metadata.Disjoint.{align_down-le}
use u_depot.KvConf.{step_size, sanitize_segment_size, Choice, waste_loop, next_segment_size}

pub sanitize_segment_size-bounds :
    (page grain n : ℕ)
    → (0 < sanitize_segment_size page grain n) × (sanitize_segment_size page grain n ≤ max 1 n)
unfolding sanitize_segment_size
sanitize_segment_size-bounds page grain n =
    let le = align_down-le n (step_size page grain) in (omega arith, omega (arith, le))

record IsIn (bound : ℕ) (c : Choice) : Type 0 where
  pos : 0 < c.new_seg_size
  below : c.new_seg_size ≤ bound

better-IsIn :
    (b : Bool) (bound ns waste : ℕ) (c : Choice)
    → 0 < ns
    → ns ≤ bound
    → IsIn bound c
    → IsIn bound (if b then record { new_seg_size = ns; min_waste = waste } else c)
better-IsIn true bound ns waste c pos le i = record { pos = pos; below = le }
better-IsIn false bound ns waste c pos le i = i

waste_loop-ends :
    (fuel page grain net least ns bound : ℕ) (c : Choice)
    → ns < fuel
    → 0 < least
    → 0 < ns
    → ns ≤ bound
    → bound < 2 ^ 64
    → IsIn bound c
    → (c' : Choice) × (waste_loop fuel page grain net least ns c ≡ some c') × IsIn bound c'
unfolding waste_loop
waste_loop-ends zero page grain net least ns bound c few some_least pos le small i =
    absurd (omega (arith, few))
waste_loop-ends (suc fuel) page grain net least ns bound c few some_least pos le small i =
    elim (Bool-cases (ltb least ns)) [
      | inr small_enough ↦ (c, rw (waste_loop, small_enough) refl, i)
      | inl more ↦
          let above = ltb→lt least ns more in
          let next = sanitize_segment_size page grain (sub64 ns 1) in
          let (next_pos, next_le) = sanitize_segment_size-bounds page grain (sub64 ns 1) in
          let less : next < ns = omega (arith, next_le, above, some_least, le, small) in
          let waste = sub64 net (align_down net (ns * grain % 2 ^ 64)) in
          let (c', run, i') =
            waste_loop-ends fuel page grain net least next bound _ (omega (arith, less, few))
              some_least next_pos (omega (arith, less, le)) small
              (better-IsIn (ltb waste c.min_waste) bound ns waste c pos le i) in
          (c', rw (waste_loop, more) run, i')
    ]

-- For a positive 64-bit size of segments that the device does not allow, the search of
-- `init_local` for another ends, and gives none or a positive size that is smaller than the one
-- before, so that it can be repeated only finitely often.
pub next_segment_size-ends :
    (page grain size segment_size : ℕ)
    → 0 < segment_size
    → segment_size < 2 ^ 64
    → (next_segment_size page grain size segment_size ≡ some none)
      ⊎ ((n : ℕ) × (next_segment_size page grain size segment_size ≡ some (some n))
          × (0 < n)
          × (n < segment_size))
unfolding next_segment_size
next_segment_size-ends page grain size segment_size pos small =
    let first = sub64 segment_size 1 in
    elim (Bool-cases (first == 0)) [
      | inl nothing ↦ inl (rw (next_segment_size, nothing) refl)
      | inr something ↦
          let (ns_pos, ns_le) = sanitize_segment_size-bounds page grain first in
          let ns = sanitize_segment_size page grain first in
          let two : 1 < segment_size = ground (arith, something, pos, small) in
          let below : ns ≤ segment_size - 1 = omega (arith, ns_le, two, small) in
          let (c, run, i) =
            waste_loop-ends (suc ns) page grain (sub64 size grain) (segment_size / 2) ns
              (segment_size - 1) (record { new_seg_size = ns; min_waste = 2 ^ 64 - 1 })
              (omega arith) (omega (arith, two)) ns_pos below (omega (arith, small))
              (record { pos = ns_pos; below = below }) in
          inr (
            c.new_seg_size,
            rw (next_segment_size, something, run) refl,
            i.pos,
            omega (arith, i.below, two),
          )
    ]
