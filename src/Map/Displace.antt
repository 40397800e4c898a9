-- ===== src/Map/Displace.antt =====
-- One displacement of `try_shift` in udepot-map.hh: what a swap of two slots does to their entries.
use u_depot.Base.{
  ℕ, ◌%◌, ◌^◌, ◌<◌, ◌≡◌, ◌≢◌, refl, sym, ap, subst, ◌∙◌, false, set, length, sub64, get_or-set_self,
  get_or-set_ne, length-set,
}
use u_depot.HashEntry.{HashEntry, used, empty_entry}
use u_depot.Map.{Map, at, write, hash_to_hb, entry_keyfp}
use u_depot.Map.Shift.{set_offset, swap_slots}

abbrev pub moved_entry : Map → ℕ → ℕ → HashEntry
moved_entry m c v = record (at m c) {
  bucket_offset = sub64 v (hash_to_hb m (entry_keyfp m c)) % 2 ^ 6;
}

abbrev swapped : Map → ℕ → ℕ → Map
swapped m c v = write (write m c (at m v)) v (at m c)

module _ (m : Map) (c v : ℕ) (apart : c ≢ v) (cin : c < length m.ht) (vin : v < length m.ht) where
  at-swapped_victim : at (swapped m c v) v ≡ at m c
  at-swapped_victim =
      get_or-set_self (set m.ht c (at m v)) v (at m c) empty_entry
        (subst (λ n. v < n) (sym (length-set m.ht c (at m v))) vin)

  at-swapped_candidate : at (swapped m c v) c ≡ at m v
  at-swapped_candidate =
      get_or-set_ne (set m.ht c (at m v)) v c (at m c) empty_entry (λ e. apart (sym e))
      ∙ get_or-set_self m.ht c (at m v) empty_entry cin

  at-swapped_other : (r : ℕ) → r ≢ c → r ≢ v → at (swapped m c v) r ≡ at m r
  at-swapped_other r nc nv =
      get_or-set_ne (set m.ht c (at m v)) v r (at m c) empty_entry (λ e. nv (sym e))
      ∙ get_or-set_ne m.ht c r (at m v) empty_entry (λ e. nc (sym e))

-- What a displacement into an unused slot does.
pub record Swaps (m m' : Map) (c v : ℕ) : Type 0 where
  pub victim : at m' v ≡ moved_entry m c v
  pub candidate : at m' c ≡ at m v
  pub others : (r : ℕ) → r ≢ c → r ≢ v → at m' r ≡ at m r
  pub same_nr : m'.entry_nr ≡ m.entry_nr
  pub same_bits : m'.entry_nr_bits ≡ m.entry_nr_bits
  pub same_width : length m'.ht ≡ length m.ht

module _ (m : Map) (c v : ℕ) (apart : c ≢ v) (cin : c < length m.ht) (vin : v < length m.ht)
    (unused : used (at m v) ≡ false) where
  relabelled : Map
  relabelled = set_offset (swapped m c v) v (sub64 v (hash_to_hb m (entry_keyfp m c)))

  at-relabelled : (r : ℕ) → r ≢ v → at relabelled r ≡ at (swapped m c v) r
  unfolding relabelled
  at-relabelled r ne = get_or-set_ne (swapped m c v).ht v r _ empty_entry (λ e. ne (sym e))

  relabelled-Swaps : Swaps m relabelled c v
  unfolding relabelled
  relabelled-Swaps =
      let x : HashEntry = record (at (swapped m c v) v) {
        bucket_offset = sub64 v (hash_to_hb m (entry_keyfp m c)) % 2 ^ 6;
      } in
      let wide : length (swapped m c v).ht ≡ length m.ht =
        length-set (set m.ht c (at m v)) v (at m c) ∙ length-set m.ht c (at m v) in
      record {
        victim =
            get_or-set_self (swapped m c v).ht v x empty_entry (subst (λ n. v < n) (sym wide) vin)
            ∙ ap
                (λ (y : HashEntry). record y {
                  bucket_offset = sub64 v (hash_to_hb m (entry_keyfp m c)) % 2 ^ 6;
                })
                (at-swapped_victim m c v apart cin vin);
        candidate = at-relabelled c apart ∙ at-swapped_candidate m c v apart cin vin;
        others = λ r nc nv. at-relabelled r nv ∙ at-swapped_other m c v apart cin vin r nc nv;
        same_nr = refl;
        same_bits = refl;
        same_width = length-set (swapped m c v).ht v x ∙ wide;
      }

  swap_slots-relabelled : swap_slots m c v ≡ relabelled
  unfolding swap_slots relabelled
  swap_slots-relabelled =
      let t : used (at relabelled c) ≡ false =
        ap used (at-relabelled c apart ∙ at-swapped_candidate m c v apart cin vin) ∙ unused in
      rw t

  pub swap_slots-Swaps : Swaps m (swap_slots m c v) c v
  swap_slots-Swaps = subst (λ k. Swaps m k c v) (sym swap_slots-relabelled) relabelled-Swaps
