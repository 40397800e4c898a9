-- ===== src/Store/GetFinds.antt =====
-- What `get` makes of an entry that leads to a record of the key.
use u_depot.Base.{
  ℕ, ◌+◌, ◌*◌, ◌/◌, ◌≤◌, ◌<◌, ◌≡◌, refl, ltb, lt→ltb, ap, ◌∙◌, true, List, [], take, drop, length,
  leb, le→leb, arith,
}
use u_depot.HashEntry.{HashEntry}
use u_depot.Map.{hit, at, lookup}
use u_depot.Directory.{Directory, hash_to_map}
use u_depot.Store.{done, eio, Header, Env, Device, got, prefix_size, aligned}
use u_depot.Store.SearchFinds.{search-present, lookup_common-first}
use u_depot.Store.Lookup.{lookup_mbuff, read_record, examine_value, in_place}
use u_depot.Store.Records.{
  record_bytes, length-record_bytes, value-record_bytes, IsStorable, examine_value-record_bytes,
}
use u_depot.Store.Get.{is_whole, get_found}

-- A lookup of the key in a directory that leads to the record gives the value.
pub get_found-record_bytes :
    (env : Env) (d : Directory) (dev : Device) (h q : ℕ) (md : Header) (key value tail : List ℕ)
    → lookup (hash_to_map d h) h ≡ hit q
    → IsStorable env md key value (at (hash_to_map d h) q).kv_size
    → 0 < length value
    → (at (hash_to_map d h) q).kv_size ≤ length (record_bytes md key value tail) / env.grain_size
    → read_record env dev
        (λ _. eio)
        ((at (hash_to_map d h) q).pba * env.grain_size)
        (aligned env ((at (hash_to_map d h) q).kv_size * env.grain_size))
      ≡ got (record_bytes md key value tail)
    → get_found env (length key) (lookup_mbuff env (λ _. d) (λ _. dev) h key)
      ≡ record { rc = done; value = value }
unfolding lookup_mbuff get_found is_whole
get_found-record_bytes env d dev h q md key value tail found st has_value grains_read read =
    let e : HashEntry = at (hash_to_map d h) q in
    let stored = record_bytes md key value tail in
    let len = length-record_bytes md key value tail in
    let enough : leb (prefix_size + length key + md.val_size) (length stored) ≡ true =
      le→leb _ _ (omega (arith, len, st.val_same)) in
    let some_value : ltb 0 md.val_size ≡ true = lt→ltb _ _ (rw st.val_same has_value) in
    let whole : is_whole env e md stored ≡ true =
      rw (is_whole, some_value, le→leb _ _ grains_read) refl in
    ap (get_found env (length key)) (
      search-present (λ _. d) (λ k. examine_value env key dev) in_place _ h 32 0 [] q q md stored
        (lookup_common-first d h q found)
        (examine_value-record_bytes env dev md key value tail e st read) refl)
    ∙ rw (get_found, whole)
        (ap (λ v. record { rc = done; value = v })
          (rw enough (ap (λ n. take n (drop (14 + length key) stored)) st.val_same)
            ∙ value-record_bytes md key value tail))
