-- ===== src/KvWire.antt =====
-- src/include/uDepot/kv-wire.hh: the headers of requests and responses of the key value service.
pub mod Requests
mod Tests
use u_depot.Base.{ℕ, ◌+◌, ◌%◌, ◌^◌, Bool, ◌==◌}

-- MAGIC
abbrev pub magic_number : ℕ
magic_number = 0xfa73fa11

pub data Op : Type 0 where
  nop : Op
  put : Op
  get : Op
  del : Op

-- The members of the union share their first word, `key`; `val` is `put.val_len`.
pub record ReqHdr : Type 0 where
  pub magic : ℕ
  pub op : Op
  pub req_id : ℕ
  pub key : ℕ
  pub val : ℕ

abbrev key_len_of : Op → ReqHdr → ℕ
key_len_of nop r = 0
key_len_of put r = r.key
key_len_of get r = r.key
key_len_of del r = r.key

abbrev pub key_len : ReqHdr → ℕ
key_len r = key_len_of r.op r

-- The sum of two u32 is a u32.
abbrev body_len_of : Op → ReqHdr → ℕ
body_len_of nop r = 0
body_len_of get r = r.key
body_len_of del r = r.key
body_len_of put r = (r.key + r.val) % 2 ^ 32

abbrev pub body_len : ReqHdr → ℕ
body_len r = body_len_of r.op r

abbrev val_len_of : Op → ReqHdr → ℕ
val_len_of nop r = 0
val_len_of get r = 0
val_len_of del r = 0
val_len_of put r = r.val

abbrev pub val_len : ReqHdr → ℕ
val_len r = val_len_of r.op r

-- The word that a constructor does not write is left over in the memory: `junk`.
abbrev pub mk_get : ℕ → ℕ → ℕ → ReqHdr
mk_get junk req_id key_len = record {
  magic = magic_number;
  op = get;
  req_id = req_id % 2 ^ 64;
  key = key_len % 2 ^ 32;
  val = junk;
}

abbrev pub mk_put : ℕ → ℕ → ℕ → ReqHdr
mk_put req_id key_len val_len = record {
  magic = magic_number;
  op = put;
  req_id = req_id % 2 ^ 64;
  key = key_len % 2 ^ 32;
  val = val_len % 2 ^ 32;
}

abbrev pub mk_nop : ℕ → ℕ → ℕ → ReqHdr
mk_nop junk junk' req_id = record {
  magic = magic_number;
  op = nop;
  req_id = req_id % 2 ^ 64;
  key = junk;
  val = junk';
}

abbrev pub verify_magic : ReqHdr → Bool
verify_magic r = r.magic == magic_number

pub record ResHdr : Type 0 where
  pub magic : ℕ
  pub req_id : ℕ
  pub error : ℕ

abbrev pub response : ℕ → ℕ → ResHdr
response res rid = record { magic = magic_number; req_id = rid % 2 ^ 64; error = res % 2 ^ 32 }

pub record ResGetHdr : Type 0 where
  pub hdr : ResHdr
  pub val_len : ℕ

abbrev pub get_response : ℕ → ℕ → ℕ → ResGetHdr
get_response res rid vlen = record { hdr = response res rid; val_len = vlen % 2 ^ 64 }
