-- ===== src/Wire/Put.antt =====
-- PUT: the requests, the answer with the destination, the commit and the result, of
-- kv-service/server/src/rdma/wire.rs.
use context_store.Prelude.{
  ℕ, zero, suc, Bool, true, false, List, [], ◌∷◌, ◌++◌, ◌==◌, if◌then◌else◌,
}
use context_store.Prelude.Int.{ℤ, pos, negsuc}
use context_store.Wire.Codec.{
  Result, ok, bad_tag, bind, Reader, pure, raise, ◌>>=◌, read_word, read_byte, read_flag, flag, u8,
  u32, u64, i64_bits, i64_of_bits, frame, write_string_u16, read_string_u16,
}

abbrev pub msg_put_req : ℕ
msg_put_req = 4

abbrev pub msg_put_ready : ℕ
msg_put_ready = 5

abbrev pub msg_put_commit : ℕ
msg_put_commit = 6

abbrev pub msg_put_resp : ℕ
msg_put_resp = 7

abbrev pub msg_put_if_absent_req : ℕ
msg_put_if_absent_req = 9

abbrev pub msg_put_with_options_req : ℕ
msg_put_with_options_req = 10

abbrev pub msg_put_if_absent_with_options_req : ℕ
msg_put_if_absent_with_options_req = 11

pub record PutReqMsg : Type 0 where
  pub key : List ℕ
  pub size : ℕ
  pub ttl_seconds : ℤ

-- `ttl_seconds != 0`
unfoldable pub has_ttl : ℤ → Bool
has_ttl (pos zero) = false
has_ttl (pos (suc n)) = true
has_ttl (negsuc n) = true

abbrev pub put_ttl : Bool → ℤ → List ℕ
put_ttl true ttl = u64 (i64_bits ttl)
put_ttl false ttl = []

unfoldable pub send_put_req : PutReqMsg → Result (List ℕ)
unfolding has_ttl
send_put_req msg =
    let with_options = has_ttl msg.ttl_seconds in
    bind (write_string_u16 msg.key) λ key. ok (
      frame (
        u8 (if with_options then msg_put_with_options_req else msg_put_req)
        ∷ key
        ∷ u64 msg.size
        ∷ put_ttl with_options msg.ttl_seconds
        ∷ []))

unfoldable pub read_ttl : Bool → Reader ℤ
read_ttl true = do bits ← read_word 8; pure (i64_of_bits bits)
read_ttl false = pure (pos 0)

module _ (valid_utf8 : List ℕ → Bool) where
  unfoldable pub recv_put_req_body : Bool → Reader PutReqMsg
  unfolding read_ttl
  recv_put_req_body with_options = do
    key ← read_string_u16 valid_utf8
    size ← read_word 8
    ttl_seconds ← read_ttl with_options
    pure (record { key = key; size = size; ttl_seconds = ttl_seconds })

pub record PutReadyMsg : Type 0 where
  pub granted : Bool
  pub dst_addr : ℕ
  pub dst_rkey : ℕ

unfoldable pub send_put_ready : PutReadyMsg → List ℕ
send_put_ready msg =
    frame (u8 msg_put_ready ∷ flag msg.granted ∷ u64 msg.dst_addr ∷ u32 msg.dst_rkey ∷ [])

unfoldable pub recv_put_ready : Reader PutReadyMsg
recv_put_ready = do
  tag ← read_byte
  let body : Reader PutReadyMsg = do
    granted ← read_flag
    dst_addr ← read_word 8
    dst_rkey ← read_word 4
    pure (record { granted = granted; dst_addr = dst_addr; dst_rkey = dst_rkey })
  if tag == msg_put_ready then body else raise bad_tag

abbrev pub send_put_commit : List ℕ
send_put_commit = u8 msg_put_commit

abbrev pub put_result_failed : ℕ
put_result_failed = 0

abbrev pub put_result_stored : ℕ
put_result_stored = 1

abbrev pub put_result_exists : ℕ
put_result_exists = 2

unfoldable pub send_put_result : ℕ → List ℕ
send_put_result result = u8 msg_put_resp ++ u8 result

unfoldable pub send_put_resp : Bool → List ℕ
unfolding send_put_result
send_put_resp done = send_put_result (if done then put_result_stored else put_result_failed)

unfoldable pub recv_put_resp : Reader Bool
recv_put_resp = do tag ← read_byte; if tag == msg_put_resp then read_flag else raise bad_tag
