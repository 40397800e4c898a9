-- ===== src/Memcache.antt =====
-- src/uDepot/net/mc-helpers.cc and src/include/uDepot/net/mc-helpers.hh: the memcache protocol. A line of
-- a command is the list of its bytes, and a token is one too.
pub mod Words
pub mod Tokens
pub mod TokensJoin
pub mod Numbers
pub mod Parse
pub mod ParseBounds
pub mod ParseJoin
pub mod Requests
pub mod Item
pub mod SetGet
mod Tests
use u_depot.Base.{ℕ, List, [], ◌∷◌}

-- mc_req_type
pub data Req : Type 0 where
  req_inval : Req
  req_get : Req
  req_gets : Req
  req_set : Req
  req_add : Req
  req_replace : Req
  req_append : Req
  req_prepend : Req
  req_cas : Req
  req_incr : Req
  req_decr : Req
  req_del : Req
  req_touch : Req
  req_flush_all : Req
  req_quit : Req
  req_watch : Req
  req_lru_crawler : Req
  req_cache_memlimit : Req
  req_verbosity : Req
  req_slabs : Req
  req_stats : Req
  req_version : Req
  req_not_implemented : Req
  req_last : Req

-- mc_rsp_type
pub data Rsp : Type 0 where
  rsp_inval : Rsp
  rsp_key_value : Rsp
  rsp_stored : Rsp
  rsp_not_stored : Rsp
  rsp_exists : Rsp
  rsp_not_found : Rsp
  rsp_touched : Rsp
  rsp_deleted : Rsp
  rsp_version : Rsp
  rsp_connection_close : Rsp
  rsp_error : Rsp
  rsp_client_error_format : Rsp
  rsp_client_error_non_numeric : Rsp
  rsp_client_error_bad_data_chunk : Rsp
  rsp_client_error_bound : Rsp
  rsp_server_error : Rsp
  rsp_server_error_unsupported_multiget : Rsp
  rsp_last : Rsp

-- the signed 64-bit numbers of the protocol: `negsuc n` is -(n + 1)
pub data ℤ : Type 0 where
  pos : ℕ → ℤ
  negsuc : ℕ → ℤ

abbrev pub max_tokens : ℕ
max_tokens = 512

abbrev pub max_key_length : ℕ
max_key_length = 250

-- REALTIME_MAXDELTA: thirty days in seconds
abbrev pub realtime_maxdelta : ℕ
realtime_maxdelta = 2592000
