-- ===== src/Memcache/SetGet.antt =====
-- A memcache `set` that is stored, and the `get` that follows it.
