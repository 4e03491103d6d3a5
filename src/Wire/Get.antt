-- ===== src/Wire/Get.antt =====
-- Hello, GET and its response: kv-service/server/src/rdma/wire.rs and `QpInfo` of
-- kv-service/server/src/rdma/qp.rs.
use context_store.Prelude.{ℕ, Bool, List, [], ◌∷◌, ◌++◌, ◌==◌, if◌then◌else◌}
use context_store.Wire.Codec.{
  Result, ok, bad_tag, bind, Reader, pure, raise, ◌>>=◌, read_exact, read_word, read_byte,
  read_flag, flag, u8, u32, u64, frame, write_string_u16, read_string_u16,
}

abbrev pub msg_hello : ℕ
msg_hello = 1

abbrev pub msg_get_req : ℕ
msg_get_req = 2

abbrev pub msg_get_resp : ℕ
msg_get_resp = 3

-- The GID is its 16 bytes.
pub record QpInfo : Type 0 where
  pub qpn : ℕ
  pub psn : ℕ
  pub gid : List ℕ

unfoldable pub to_bytes : QpInfo → List ℕ
to_bytes info = frame (u32 info.qpn ∷ u32 info.psn ∷ info.gid ∷ [])

-- The body of 24 bytes is read in its three parts.
unfoldable pub from_bytes : Reader QpInfo
from_bytes = do
  qpn ← read_word 4
  psn ← read_word 4
  gid ← read_exact 16
  pure (record { qpn = qpn; psn = psn; gid = gid })

unfoldable pub send_hello : QpInfo → List ℕ
unfolding to_bytes
send_hello info = u8 msg_hello ++ to_bytes info

unfoldable pub recv_hello : Reader QpInfo
unfolding from_bytes
recv_hello = do tag ← read_byte; if tag == msg_hello then from_bytes else raise bad_tag

pub record GetReqMsg : Type 0 where
  pub key : List ℕ
  pub dst_addr : ℕ
  pub dst_rkey : ℕ
  pub max_size : ℕ

unfoldable pub send_get_req : GetReqMsg → Result (List ℕ)
send_get_req msg = bind (write_string_u16 msg.key) λ key.
    ok (frame (u8 msg_get_req ∷ key ∷ u64 msg.dst_addr ∷ u32 msg.dst_rkey ∷ u64 msg.max_size ∷ []))

pub record GetRespMsg : Type 0 where
  pub found : Bool
  pub bytes_written : ℕ
  pub num_chunks : ℕ

unfoldable pub send_get_resp : GetRespMsg → List ℕ
send_get_resp msg =
    frame (u8 msg_get_resp ∷ flag msg.found ∷ u64 msg.bytes_written ∷ u32 msg.num_chunks ∷ [])

unfoldable pub recv_get_resp : Reader GetRespMsg
recv_get_resp = do
  tag ← read_byte
  let body : Reader GetRespMsg = do
    found ← read_flag
    bytes_written ← read_word 8
    num_chunks ← read_word 4
    pure (record { found = found; bytes_written = bytes_written; num_chunks = num_chunks })
  if tag == msg_get_resp then body else raise bad_tag

module _ (valid_utf8 : List ℕ → Bool) where
  -- What follows the tag; `handle_client` of kv-service/server/src/rdma/server.rs has it inline.
  unfoldable pub recv_get_req_body : Reader GetReqMsg
  recv_get_req_body = do
    key ← read_string_u16 valid_utf8
    dst_addr ← read_word 8
    dst_rkey ← read_word 4
    max_size ← read_word 8
    pure (record { key = key; dst_addr = dst_addr; dst_rkey = dst_rkey; max_size = max_size })

  unfoldable pub recv_get_req : Reader GetReqMsg
  unfolding recv_get_req_body
  recv_get_req = do tag ← read_byte; if tag == msg_get_req then recv_get_req_body else raise bad_tag
