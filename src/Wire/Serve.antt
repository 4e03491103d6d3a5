-- ===== src/Wire/Serve.antt =====
-- How `handle_client` of kv-service/server/src/rdma/server.rs takes the next request off the stream.
use context_store.Prelude.{ℕ, Bool, List, [], ◌∷◌, ◌==◌, ◌||◌, if◌then◌else◌}
use context_store.Wire.Codec.{ok, Reader, pure, raise, ◌>>=◌, bad_tag, read_byte}
use context_store.Wire.Descriptor.{
  DescriptorGetReqMsg, is_descriptor_tag, recv_descriptor_get_req_body,
}
use context_store.Wire.Get.{GetReqMsg, recv_get_req_body, msg_get_req}
use context_store.Wire.Put.{
  PutReqMsg, recv_put_req_body, msg_put_req, msg_put_if_absent_req, msg_put_with_options_req,
  msg_put_if_absent_with_options_req,
}
use context_store.Wire.Stripes.{PutStripesReqMsg, recv_put_stripes_req_body, msg_put_stripes_req}

abbrev pub msg_bye : ℕ
msg_bye = 99

-- What the loop does next. `hung_up` is the end of the stream before a tag.
pub data Request : Type 0 where
  hung_up bye : Request
  put : Bool → PutReqMsg → Request
  put_stripes : PutStripesReqMsg → Request
  get_descriptor : DescriptorGetReqMsg → Request
  get : GetReqMsg → Request

abbrev pub is_put_tag : ℕ → Bool
is_put_tag tag =
    tag == msg_put_req
    || tag == msg_put_if_absent_req
    || tag == msg_put_with_options_req
    || tag == msg_put_if_absent_with_options_req

abbrev pub tag_is_if_absent : ℕ → Bool
tag_is_if_absent tag = tag == msg_put_if_absent_req || tag == msg_put_if_absent_with_options_req

abbrev pub tag_has_options : ℕ → Bool
tag_has_options tag = tag == msg_put_with_options_req || tag == msg_put_if_absent_with_options_req

module _ (valid_utf8 : List ℕ → Bool) where
  unfoldable pub recv_body : ℕ → Reader Request
  recv_body tag =
      if tag == msg_bye
      then pure bye
      else (if is_put_tag tag
          then (do
            req ← recv_put_req_body valid_utf8 (tag_has_options tag)
            pure (put (tag_is_if_absent tag) req))
          else (if tag == msg_put_stripes_req
              then (do req ← recv_put_stripes_req_body valid_utf8; pure (put_stripes req))
              else (if is_descriptor_tag tag
                  then (do
                    req ← recv_descriptor_get_req_body valid_utf8 tag
                    pure (get_descriptor req))
                  else (if tag == msg_get_req
                      then (do req ← recv_get_req_body valid_utf8; pure (get req))
                      else raise bad_tag))))

  unfoldable pub next_request : Reader Request
  unfolding recv_body
  next_request [] = ok (hung_up, [])
  next_request (b ∷ s) = (do tag ← read_byte; recv_body tag) (b ∷ s)
