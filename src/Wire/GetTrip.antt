-- ===== src/Wire/GetTrip.antt =====
-- Hello, GET requests and GET responses arrive as they were sent.
use context_store.Prelude.{ℕ, Bool, List, [], ◌∷◌, length, ◌≡◌, subst}
use context_store.Wire.Codec.{read_exact, u8, u32, u64, frame}
use context_store.Wire.Fields.{
  IsU32, IsU64, IsText, text, u32-Reads, u64-Reads, text-Reads, write_text, Carries,
}
use context_store.Wire.Get.{
  QpInfo, send_hello, recv_hello, GetReqMsg, send_get_req, recv_get_req, recv_get_req_body,
  GetRespMsg, send_get_resp, recv_get_resp, msg_hello, msg_get_req, msg_get_resp,
}
use context_store.Wire.Reads.{
  Reads, Reads-pure, Reads-bind, read_byte-Reads, read_flag-Reads, read_exact-Reads,
}

pub record IsQpInfo (info : QpInfo) : Type 0 where
  pub words : IsU32 info.qpn × IsU32 info.psn
  pub gid : length info.gid ≡ 16

-- A hello arrives as it was sent: the queue pair's number, its start number and its GID of 16 bytes.
hello_trip : (info : QpInfo) → IsQpInfo info → Reads recv_hello (send_hello info) info
unfolding send_hello recv_hello
hello_trip info h = Reads-bind _ (read_byte-Reads msg_hello) (
    Reads-bind _ (u32-Reads info.qpn h.words.0) (
      Reads-bind _ (u32-Reads info.psn h.words.1) (
        Reads-bind _
          (subst (λ n. Reads (read_exact n) info.gid info.gid) h.gid (read_exact-Reads info.gid))
          (Reads-pure info))))

module _ (valid_utf8 : List ℕ → Bool) where
  pub record IsGetReq (msg : GetReqMsg) : Type 0 where
    pub key : IsText valid_utf8 msg.key
    pub dst_addr : IsU64 msg.dst_addr
    pub dst_rkey : IsU32 msg.dst_rkey
    pub max_size : IsU64 msg.max_size

  pub get_req_body-Reads :
      (msg : GetReqMsg)
      → IsGetReq msg
      → Reads
          (recv_get_req_body valid_utf8)
          (frame (text msg.key ∷ u64 msg.dst_addr ∷ u32 msg.dst_rkey ∷ u64 msg.max_size ∷ []))
          msg
  unfolding recv_get_req_body
  get_req_body-Reads msg h = Reads-bind _ (text-Reads valid_utf8 h.key) (
      Reads-bind _ (u64-Reads msg.dst_addr h.dst_addr) (
        Reads-bind _ (u32-Reads msg.dst_rkey h.dst_rkey)
          (Reads-bind _ (u64-Reads msg.max_size h.max_size) (Reads-pure msg))))

  -- A GET request whose key is text of at most 65535 bytes, and whose numbers fit their words, is
  -- sent, and arrives as it was sent.
  get_req_trip :
      (msg : GetReqMsg) → IsGetReq msg → Carries (send_get_req msg) (recv_get_req valid_utf8) msg
  unfolding send_get_req recv_get_req
  get_req_trip msg h = record {
    bytes = frame (
        u8 msg_get_req
        ∷ text msg.key
        ∷ u64 msg.dst_addr
        ∷ u32 msg.dst_rkey
        ∷ u64 msg.max_size
        ∷ []);
    sends = rw (write_text valid_utf8 h.key);
    reads = Reads-bind _ (read_byte-Reads msg_get_req) (get_req_body-Reads msg h);
  }

-- A GET response whose numbers fit their words arrives as it was sent.
get_resp_trip :
    (msg : GetRespMsg)
    → IsU64 msg.bytes_written
    → IsU32 msg.num_chunks
    → Reads recv_get_resp (send_get_resp msg) msg
unfolding send_get_resp recv_get_resp
get_resp_trip msg h k = Reads-bind _ (read_byte-Reads msg_get_resp) (
    Reads-bind _ (read_flag-Reads msg.found) (
      Reads-bind _ (u64-Reads msg.bytes_written h)
        (Reads-bind _ (u32-Reads msg.num_chunks k) (Reads-pure msg))))
