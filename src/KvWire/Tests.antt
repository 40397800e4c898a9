-- ===== src/KvWire/Tests.antt =====
-- A request of kv-wire.hh.
