-- ===== src/Memcache/Requests.antt =====
-- `handle` and `handle_rsp` of src/uDepot/net/mc-helpers.cc: who answers a command, and with what.
use u_depot.Base.{ℕ, Bool, true, false, ltb, if◌then◌else◌}
use u_depot.Memcache.{
  Req, req_inval, req_get, req_gets, req_set, req_add, req_replace, req_append, req_prepend,
  req_cas, req_incr, req_decr, req_del, req_flush_all, req_quit, req_watch, req_lru_crawler,
  req_verbosity, req_stats, req_version, Rsp, rsp_stored, rsp_not_stored, rsp_not_found, rsp_error,
  rsp_client_error_format, rsp_client_error_non_numeric, rsp_client_error_bad_data_chunk,
  rsp_client_error_bound,
}

-- who answers
pub data Handler : Type 0 where
  handle_get : Handler
  handle_multiget : Handler
  -- the store is done first, and `handle_rsp` answers if an answer is wanted
  handle_store : Handler
  handle_arithmetic_cmd : Handler
  handle_stats_cmd : Handler
  -- only an answer, for what was parsed or for an error of the server
  handle_rsp : Handler
  handle_server_error : Handler
  -- the connection is closed
  quit : Handler

-- the switch of `handle`, and the test for several keys of `handle_get`
unfoldable pub handler_of : ℕ → Req → Handler
handler_of ntokens req_get = if ltb 3 ntokens then handle_multiget else handle_get
handler_of ntokens req_gets = if ltb 3 ntokens then handle_multiget else handle_get
handler_of ntokens req_set = handle_store
handler_of ntokens req_add = handle_store
handler_of ntokens req_replace = handle_store
handler_of ntokens req_append = handle_store
handler_of ntokens req_prepend = handle_store
handler_of ntokens req_quit = quit
handler_of ntokens req_incr = handle_arithmetic_cmd
handler_of ntokens req_decr = handle_arithmetic_cmd
handler_of ntokens req_cas = handle_stats_cmd
handler_of ntokens req_del = handle_stats_cmd
handler_of ntokens req_stats = handle_stats_cmd
handler_of ntokens req_version = handle_rsp
handler_of ntokens req_flush_all = handle_rsp
handler_of ntokens req_watch = handle_rsp
handler_of ntokens req_verbosity = handle_rsp
handler_of ntokens req_lru_crawler = handle_rsp
handler_of ntokens req_inval = handle_rsp
handler_of ntokens other = handle_server_error

-- whether `handle_rsp` closes the connection, with ECONNRESET, behind its answer
unfoldable pub nukes_connection : Rsp → Bool
nukes_connection rsp_stored = false
nukes_connection rsp_not_stored = false
nukes_connection rsp_not_found = false
nukes_connection rsp_error = false
nukes_connection rsp_client_error_format = false
nukes_connection rsp_client_error_non_numeric = false
nukes_connection rsp_client_error_bound = false
nukes_connection rsp_client_error_bad_data_chunk = false
nukes_connection other = true
