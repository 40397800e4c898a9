-- ===== src/KvWire/Requests.antt =====
-- The body of a request of kv-wire.hh.
use u_depot.Base.{◌+◌, ◌^◌, ◌<◌, ◌≡◌, arith}
use u_depot.KvWire.{
  ReqHdr, Op, nop, put, get, del, key_len, val_len, body_len, key_len_of, val_len_of, body_len_of,
}

-- The body of a request is as long as its key and its value together, whatever the operation,
-- if the words of the two sizes add up to a 32-bit number.
pub body_len-split : (r : ReqHdr) → r.key + r.val < 2 ^ 32 → body_len r ≡ key_len r + val_len r
body_len-split r h = split r.op
  where
    split : (o : Op) → body_len_of o r ≡ key_len_of o r + val_len_of o r
    split nop = omega arith
    split get = omega arith
    split del = omega arith
    split put = omega (arith, h)
