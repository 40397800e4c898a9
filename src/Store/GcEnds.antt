-- ===== src/Store/GcEnds.antt =====
-- The garbage collection comes to the end of a segment.
use u_depot.Base.{
  ℕ, zero, suc, ◌+◌, ◌-◌, ◌*◌, ◌^◌, ◌<◌, ◌≡◌, inl, inr, refl, Bool, false, ◌&&◌, Option, some, List,
  ltb, ltb→lt, low32, Bool-cases, arith,
}
use native.Mathlib.Nat.{mul_comm}
use u_depot.Util.Rounding.{udiv_round_up_lem}
use u_depot.Store.{
  done, eagain, Header, Env, prefix_size, suffix_size, kv_tot_grains_get, kv_tot_bytes_get,
}
use u_depot.Store.Write.{State}
use u_depot.Store.Relocate.{
  Grains, Relocated, gc_loop, gc_callback, gc_next, gc_end, gc_header, is_done, gc_step, gc_stops,
}

-- A record takes some bytes.
kv_tot_bytes_get-pos :
    (g key_size val_size : ℕ) → 0 < g → g < 2 ^ 32 → 0 < kv_tot_bytes_get g key_size val_size
unfolding kv_tot_bytes_get kv_tot_grains_get
kv_tot_bytes_get-pos g key_size val_size pos narrow =
    let n = low32 (low32 val_size + low32 key_size) + prefix_size + suffix_size in
    let (lo, _) = udiv_round_up_lem n g pos (omega arith) in
    omega (arith, lo, mul_comm g (kv_tot_grains_get g key_size val_size))

gc_next-some :
    (r : Relocated) (rest : Option Relocated)
    → (r' : Relocated) × (rest ≡ some r')
    → (r' : Relocated) × (gc_next r rest ≡ some r')
unfolding gc_next
gc_next-some r rest (last, e) = elim (Bool-cases (is_done r.rc)) [
  | inl fine ↦ (last, rw (gc_next, fine) e)
  | inr failed ↦ (r, rw (gc_next, failed) refl)
]

gc_end-some :
    (exiting : Bool) (o : Option Relocated)
    → (r : Relocated) × (o ≡ some r)
    → (r : Relocated) × (gc_end exiting o ≡ some r)
unfolding gc_end
gc_end-some exiting o (r, e) = elim (Bool-cases (is_done r.rc && exiting)) [
  | inl late ↦ (record r { rc = eagain }, rw (e, gc_end, late) refl)
  | inr fine ↦ (r, rw (e, gc_end, fine) refl)
]

in_region :
    (exit_gc : Bool) (last off : ℕ) (md : Header)
    → gc_stops exit_gc last off md ≡ false
    → off < last
unfolding gc_stops
in_region exit_gc last off md e = elim (Bool-cases (ltb off last)) [
  | inl lt ↦ ltb→lt off last lt
  | inr ge ↦ absurd (ground (arith, e, ge))
]

module _ (env : Env) (hash : List ℕ → ℕ) (answers : ℕ → Grains) (exits : ℕ → Bool)
    (first gc_size : ℕ) (pos : 0 < env.grain_size) (narrow : env.grain_size < 2 ^ 32) where
  gc_loop-ends :
      (fuel grain off : ℕ) (r : Relocated)
      → gc_size - off < fuel
      → (r' : Relocated) × (gc_loop env hash answers exits first gc_size fuel grain off r ≡ some r')
  unfolding gc_loop
  gc_loop-ends zero grain off r enough = absurd (omega arith)
  gc_loop-ends (suc fuel) grain off r enough =
      let md : Header = gc_header env first off r.state in
      let r' : Relocated = gc_step env hash answers first grain off r in
      let md' : Header = gc_header env first off r'.state in
      let bytes = kv_tot_bytes_get env.grain_size md'.key_size md'.val_size in
      let some_bytes = kv_tot_bytes_get-pos env.grain_size md'.key_size md'.val_size pos narrow in
      elim (Bool-cases (gc_stops (exits grain) (gc_size - prefix_size) off md)) [
        | inl stop ↦ (r, rw (gc_loop, stop) refl)
        | inr on ↦
            let inside : off < gc_size - prefix_size =
              in_region (exits grain) (gc_size - prefix_size) off md on in
            let (last, e) = gc_next-some r' _ (
              gc_loop-ends fuel (grain + kv_tot_grains_get env.grain_size md'.key_size md'.val_size)
                (off + bytes) r' (omega arith)) in
            (last, rw (gc_loop, on) e)
      ]

-- For grains of less than 2 ^ 32 bytes, and not of none, the loop of the garbage collection
-- over a mapped region ends within the fuel that `gc_callback` gives it, one round for each
-- byte of the region and one more, whatever stands in the region and whatever the allocator and
-- the shutdown answer.
pub gc_callback-ends :
    (env : Env) (hash : List ℕ → ℕ) (answers : ℕ → Grains) (exits : ℕ → Bool) (exiting : Bool)
    (grain_start grain_nr : ℕ) (s : State)
    → 0 < env.grain_size
    → env.grain_size < 2 ^ 32
    → (r : Relocated) × (gc_callback env hash answers exits exiting grain_start grain_nr s ≡ some r)
unfolding gc_callback
gc_callback-ends env hash answers exits exiting grain_start grain_nr s pos narrow =
    let size = grain_nr * env.grain_size in
    gc_end-some exiting _ (
      gc_loop-ends env hash answers exits grain_start size pos narrow (size + 1) grain_start 0
        (record { rc = done; relocb = 0; state = s }) (omega arith))
