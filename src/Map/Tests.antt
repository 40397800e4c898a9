-- ===== src/Map/Tests.antt =====
-- Small tables of udepot-map.hh, with what the theorems say of them.
use u_depot.Base.{
  ℕ, ◌+◌, ◌*◌, ◌^◌, ◌<◌, ◌≤◌, ◌≡◌, ◌≢◌, refl, subst, min, some, true, replicate, length, arith,
}
use u_depot.HashEntry.{bucket_size, erased_entry, max_kv_size, used}
use u_depot.Map.{
  Map, at, lookup, hit, miss, insert, remove, purge, next, update_inplace, hash_to_hb,
  hash_to_keyfp, entry_keyfp, hash_to_keytag, update, count_up, match_loop, candidate_loop,
  next_loop, lookup_pba, pba_loop, found_or, or_no_space,
}
use u_depot.Map.Keys.{IsSized, InBucket, IsPlaced, IsTagged}
use u_depot.Map.Lookup.{Outcome, lookup-Outcome, lookup-live, IsReached}
use u_depot.Map.Scan.{Holds}
use u_depot.Map.Insert.{lookup-insert, lookup-insert_other, lookup-update_inplace}
use u_depot.Map.Remove.{lookup-remove, lookup-remove_other, lookup-purge}
use u_depot.Map.LockCover.{IsCovered, lock_common-IsCovered}
use u_depot.Map.Locks.{lock_common}
use u_depot.Map.Restore.{new_map, entry_size, ready, restore}
use u_depot.Map.Geometry.{SplitsLocks, restore_lem}

-- two home slots, and a bucket behind them
abbrev pub small : Map
small = record {
  entry_nr = 34;
  ht = replicate 34 erased_entry;
  size = 272;
  entry_per_lock_nr = 4096;
  lock_nr = 1;
  entry_nr_bits = 1;
  used_entry_nr = replicate 8 0;
}

unfoldable pub one : Map
one = insert small 1 5 3 100

two : Map
two = insert one 2 7 4 200

-- two entries of one fingerprint
twice : Map
twice = insert one 2 5 4 300

pub small-IsSized : IsSized small
small-IsSized = record { homes = refl; few = omega arith; width = omega arith }

pub one-IsSized : IsSized one
unfolding one insert count_up update
one-IsSized = record { homes = refl; few = omega arith; width = omega arith }

twice-IsSized : IsSized twice
unfolding twice one insert count_up update
twice-IsSized = record { homes = refl; few = omega arith; width = omega arith }

pub lookup-small : lookup small 5 ≡ miss 1
unfolding one two twice insert count_up update lookup match_loop candidate_loop hash_to_hb
    hash_to_keyfp hash_to_keytag entry_keyfp found_or or_no_space
lookup-small = refl

pub lookup-one : lookup one 5 ≡ hit 1
unfolding one two twice insert count_up update lookup match_loop candidate_loop hash_to_hb
    hash_to_keyfp hash_to_keytag entry_keyfp found_or or_no_space
lookup-one = refl

lookup-one_other : lookup one 7 ≡ miss 2
unfolding one two twice insert count_up update lookup match_loop candidate_loop hash_to_hb
    hash_to_keyfp hash_to_keytag entry_keyfp found_or or_no_space
lookup-one_other = refl

lookup-two : lookup two 5 ≡ hit 1
unfolding one two twice insert count_up update lookup match_loop candidate_loop hash_to_hb
    hash_to_keyfp hash_to_keytag entry_keyfp found_or or_no_space
lookup-two = refl

lookup-two_other : lookup two 7 ≡ hit 2
unfolding one two twice insert count_up update lookup match_loop candidate_loop hash_to_hb
    hash_to_keyfp hash_to_keytag entry_keyfp found_or or_no_space
lookup-two_other = refl

lookup-twice : lookup twice 5 ≡ hit 1
unfolding one two twice insert count_up update lookup match_loop candidate_loop hash_to_hb
    hash_to_keyfp hash_to_keytag entry_keyfp found_or or_no_space
lookup-twice = refl

next-twice : next twice (some 1) 5 ≡ some 2
unfolding one two twice insert count_up update lookup match_loop candidate_loop hash_to_hb
    hash_to_keyfp hash_to_keytag entry_keyfp found_or or_no_space next next_loop
next-twice = refl

apart : hash_to_keyfp one 5 ≢ hash_to_keyfp one 7
unfolding one two twice insert count_up update lookup match_loop candidate_loop hash_to_hb
    hash_to_keyfp hash_to_keytag entry_keyfp found_or or_no_space
apart = omega arith

widths : (1 < length two.ht) × (1 < length twice.ht)
unfolding one two twice insert count_up update lookup match_loop candidate_loop hash_to_hb
    hash_to_keyfp hash_to_keytag entry_keyfp found_or or_no_space
widths = (omega arith, omega arith)

two-InBucket : InBucket two 7 2
unfolding one two twice insert count_up update lookup match_loop candidate_loop hash_to_hb
    hash_to_keyfp hash_to_keytag entry_keyfp found_or or_no_space
two-InBucket = (omega arith, omega arith)

two-Holds : Holds two (hash_to_keyfp two 7) 2
unfolding one two twice insert count_up update lookup match_loop candidate_loop hash_to_hb
    hash_to_keyfp hash_to_keytag entry_keyfp found_or or_no_space
two-Holds = ((refl, refl), refl)

two-IsReached : IsReached two 7 2
unfolding one two twice insert count_up update lookup match_loop candidate_loop hash_to_hb
    hash_to_keyfp hash_to_keytag entry_keyfp found_or or_no_space
two-IsReached r lo hi =
    subst (λ k. used (at two k) ≡ true) (let e : 1 ≡ r = omega (arith, lo, hi) in e) refl

pub one-IsTagged : IsTagged one 5 1
unfolding one two twice insert count_up update lookup match_loop candidate_loop hash_to_hb
    hash_to_keyfp hash_to_keytag entry_keyfp found_or or_no_space
one-IsTagged = (refl, refl)

two-start : hash_to_hb two 7 ≤ 1
unfolding one two twice insert count_up update lookup match_loop candidate_loop hash_to_hb
    hash_to_keyfp hash_to_keytag entry_keyfp found_or or_no_space
two-start = omega arith

small_region :
    (0 < 4)
    × (4 < 2 ^ 32)
    × (entry_size * (bucket_size + 1) ≤ 512)
    × (512 ≤ entry_size * length (replicate 64 erased_entry))
small_region = (omega arith, omega arith, omega arith, omega arith)

covered : (hash_to_hb small 7 ≤ 0 + bucket_size) × (0 < hash_to_hb small 7 + 2080)
unfolding one two twice insert count_up update lookup match_loop candidate_loop hash_to_hb
    hash_to_keyfp hash_to_keytag entry_keyfp found_or or_no_space
covered = (omega arith, omega arith)

lookup-insert_example :
    (lookup (insert small 1 5 3 100) 5 ≡ hit 1)
    × ((at (insert small 1 5 3 100) 1).pba ≡ 100)
    × ((at (insert small 1 5 3 100) 1).kv_size ≡ min 3 max_kv_size)
lookup-insert_example =
    lookup-insert small 5 1 3 100 small-IsSized lookup-small (omega arith) (omega arith)

lookup-insert_other_example : lookup (insert one 2 7 4 200) 5 ≡ hit 1
lookup-insert_other_example =
    lookup-insert_other one 7 2 4 200 5 1 one-IsSized lookup-one_other (omega arith) apart
      lookup-one

lookup-remove_example : lookup (remove twice 1 77) 5 ≡ hit 2
lookup-remove_example =
    lookup-remove twice 1 77 (widths.1) (omega arith) 5 2 lookup-twice next-twice
      (λ k lo hi. absurd (omega (arith, lo, hi)))

lookup-remove_other_example : lookup (remove two 1 77) 7 ≡ hit 2
lookup-remove_other_example =
    lookup-remove_other two 1 77 (widths.0) (omega arith) 7 2 (λ e. absurd (omega (arith, e)))
      lookup-two_other

lookup-live_example : (r : ℕ) × (lookup two 7 ≡ hit r) × (r ≤ 2)
lookup-live_example = lookup-live two 7 2 two-InBucket two-Holds two-IsReached

lookup-Outcome_example : Outcome small 5 (lookup small 5)
lookup-Outcome_example = lookup-Outcome small 5

lookup-update_inplace_example :
    (lookup (update_inplace one 1 5 9 600) 5 ≡ hit 1)
    × ((at (update_inplace one 1 5 9 600) 1).pba ≡ 600)
    × ((at (update_inplace one 1 5 9 600) 1).kv_size ≡ min 9 max_kv_size)
lookup-update_inplace_example =
    lookup-update_inplace one 5 1 9 600 one-IsSized one-IsTagged lookup-one (omega arith)
      (omega arith)

lookup-purge_example : lookup (purge two 1) 7 ≢ hit 2
lookup-purge_example = lookup-purge two 7 1 2 (widths.0) lookup-two_other two-start (omega arith) 2

lock_common-IsCovered_example : IsCovered small (lock_common small 7) 0
lock_common-IsCovered_example =
    lock_common-IsCovered small 7 0 small-IsSized (omega arith) (covered.0) (covered.1)
      (omega arith)

restore_lem_example :
    (m : Map) × (restore new_map 4 512 (some (replicate 64 erased_entry)) ≡ ready m)
    × IsSized m
    × (512 < entry_size * (2 * m.entry_nr))
    × SplitsLocks m.entry_nr m.lock_nr m.entry_per_lock_nr
restore_lem_example =
    restore_lem new_map 4 512 (replicate 64 erased_entry) (omega arith) (omega arith)
      (small_region.3) (omega arith) (omega arith)

-- The swap of `one` into the slot behind it.
pub one-IsPlaced : IsPlaced one 1
unfolding one two twice insert count_up update lookup match_loop candidate_loop hash_to_hb
    hash_to_keyfp hash_to_keytag entry_keyfp found_or or_no_space
one-IsPlaced = record {
  near = omega arith;
  after_home = omega arith;
  home_in = omega arith;
  tag_in = omega arith;
}

one-InBucket : InBucket one 5 1
unfolding one two twice insert count_up update lookup match_loop candidate_loop hash_to_hb
    hash_to_keyfp hash_to_keytag entry_keyfp found_or or_no_space
one-InBucket = (omega arith, omega arith)

pub one-kv_size : (at one 1).kv_size ≡ 3
unfolding one insert update count_up hash_to_hb hash_to_keytag
one-kv_size = refl

pub lookup_pba-one : lookup_pba one 5 100 ≡ some 1
unfolding one lookup_pba pba_loop insert update count_up hash_to_hb hash_to_keytag
lookup_pba-one = refl
