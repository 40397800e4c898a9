-- ===== src/HashEntry.antt =====
-- src/include/uDepot/lsa/hash-entry.hh: one slot of the hash table, a word of four bit fields.
-- A write to a field keeps the field's low bits.
use u_depot.Base.{ℕ, ◌-◌, ◌^◌, ◌≡◌, refl, Bool, not, ◌==◌}
use u_depot.Util.{num_bits}

abbrev pub bucket_size : ℕ
bucket_size = 32

abbrev pub keytag_bits : ℕ
keytag_bits = 8

abbrev pub kv_size_bits : ℕ
kv_size_bits = 11

-- NUM_BITS(_UDEPOT_HOP_SCOTCH_BUCKET_SIZE)
abbrev pub hop_off_bits : ℕ
hop_off_bits = 6

hop_off_bits_lem : num_bits bucket_size ≡ hop_off_bits
unfolding num_bits
hop_off_bits_lem = refl

abbrev pub pba_bits : ℕ
pba_bits = 64 - keytag_bits - kv_size_bits - hop_off_bits

abbrev pub unused_pba_entry : ℕ
unused_pba_entry = 2 ^ pba_bits - 1

abbrev pub deleted_kv_size_entry : ℕ
deleted_kv_size_entry = 0

abbrev pub max_kv_size : ℕ
max_kv_size = 2 ^ kv_size_bits - 1

pub record HashEntry : Type 0 where
  pub bucket_offset : ℕ
  pub key_tag : ℕ
  pub kv_size : ℕ
  pub pba : ℕ

-- HashEntry()
abbrev pub empty_entry : HashEntry
empty_entry = record { bucket_offset = 0; key_tag = 0; kv_size = 1; pba = unused_pba_entry }

-- What `memset(ht, -1, size)` leaves in a slot.
abbrev pub erased_entry : HashEntry
erased_entry = record {
  bucket_offset = 2 ^ hop_off_bits - 1;
  key_tag = 2 ^ keytag_bits - 1;
  kv_size = 2 ^ kv_size_bits - 1;
  pba = 2 ^ pba_bits - 1;
}

abbrev pub deleted : HashEntry → Bool
deleted e = e.kv_size == deleted_kv_size_entry

abbrev pub used : HashEntry → Bool
used e = not (e.pba == unused_pba_entry)

abbrev pub set_deleted : HashEntry → HashEntry
set_deleted e = record e { kv_size = deleted_kv_size_entry }

abbrev pub reset_deleted : HashEntry → HashEntry
reset_deleted e = record e { kv_size = max_kv_size }

abbrev pub reset_used : HashEntry → HashEntry
reset_used e = record e { pba = unused_pba_entry }

-- HashEntry::purge
abbrev pub purge_entry : HashEntry → HashEntry
purge_entry e = reset_used (reset_deleted (record e { bucket_offset = 0; key_tag = 0 }))
