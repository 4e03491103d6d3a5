-- ===== src/Wire/ServeTrip.antt =====
-- The server takes the client's frames off the stream as the requests that they stand for.
use context_store.Prelude.{ℕ, Bool, true, false, List, [], ◌∷◌, ◌++◌, length, ◌≡◌, refl, ◌∙◌}
use context_store.Wire.Built.{
  get_frame, stripes_frame, segments_frame, put_stripes_frame, any_put_frame, wanted, pushed,
}
use context_store.Wire.Client.{
  ObjectDescriptor, build_get_request, get_descriptor_stripes_into, get_descriptor_stripes_sge,
  total_len, put_stripes_from, put_key_from, put_message,
}
use context_store.Wire.Codec.{Reader, pure, ◌>>=◌, u8, u32, u64, frame}
use context_store.Wire.Descriptor.{
  Segment, DescriptorGetReqMsg, descriptor_tag, send_descriptor_get_req,
  recv_descriptor_get_req_body,
}
use context_store.Wire.DescriptorTrip.{IsDescriptorGetReq, body, body-Reads, lists_trip}
use context_store.Wire.Fields.{text, write_text, Carries}
use context_store.Wire.Get.{GetReqMsg, send_get_req, msg_get_req}
use context_store.Wire.GetTrip.{IsGetReq, get_req_body-Reads}
use context_store.Wire.Put.{PutReqMsg, has_ttl, put_ttl, recv_put_req_body}
use context_store.Wire.PutTrip.{
  IsPutReq, put_req_body-Reads, IsPutStripesReq, put_stripes_body-Reads,
}
use context_store.Wire.Reads.{Reads, Reads-bind, read_byte-Reads, count_u16-ok}
use context_store.Wire.Serve.{
  Request, put, put_stripes, get_descriptor, get, recv_body, next_request,
}
use context_store.Wire.Stripes.{send_put_stripes_req, msg_put_stripes_req}

module _ (valid_utf8 : List ℕ → Bool) where
  tag-Reads :
      (tag : ℕ) {bytes : List ℕ} {request : Request}
      → Reads (recv_body valid_utf8 tag) bytes request
      → Reads (next_request valid_utf8) (u8 tag ++ bytes) request
  unfolding next_request
  tag-Reads tag h = record {
    at = λ rest. (Reads-bind (recv_body valid_utf8) (read_byte-Reads tag) h).at rest;
  }

  request-Reads :
      {A : Type 0} {m : Reader A} {bytes : List ℕ} {a : A} (f : A → Request)
      → Reads m bytes a
      → Reads (do x ← m; pure (f x)) bytes (f a)
  request-Reads f h = record { at = λ rest. rw (h.at rest) refl }

  -- A GET of the client, with a key that is text of at most 65535 bytes and numbers that fit their
  -- words, is built, and the server's loop takes it for that GET and leaves what follows.
  pub served_get :
      (msg : GetReqMsg)
      → IsGetReq valid_utf8 msg
      → Carries
          (build_get_request msg.key msg.dst_addr msg.dst_rkey msg.max_size)
          (next_request valid_utf8)
          (get msg)
  unfolding send_get_req recv_body
  served_get msg h = record {
    bytes = frame (
        u8 msg_get_req
        ∷ text msg.key
        ∷ u64 msg.dst_addr
        ∷ u32 msg.dst_rkey
        ∷ u64 msg.max_size
        ∷ []);
    sends =
        get_frame msg.key msg.dst_addr msg.dst_rkey msg.max_size
        ∙ rw (write_text valid_utf8 h.key) refl;
    reads = tag-Reads msg_get_req (request-Reads get (get_req_body-Reads valid_utf8 msg h));
  }

  put_body :
      (if_not_exists with_options : Bool)
      → recv_body valid_utf8 (put_message if_not_exists with_options)
        ≡ (do req ← recv_put_req_body valid_utf8 with_options; pure (put if_not_exists req))
  unfolding recv_body put_message
  put_body true true = refl
  put_body true false = refl
  put_body false true = refl
  put_body false false = refl

  -- A PUT of the client, conditional or not, with a key that is text of at most 65535 bytes, a size
  -- of 64 bits and a time to live of 64 bits with a sign, is built, and the server's loop takes it
  -- for that PUT, with the condition and the time to live that were asked for.
  pub served_put :
      (if_not_exists : Bool) (msg : PutReqMsg)
      → IsPutReq valid_utf8 msg
      → Carries
          (put_key_from msg.key msg.size if_not_exists msg.ttl_seconds)
          (next_request valid_utf8)
          (put if_not_exists msg)
  served_put if_not_exists msg h =
      let tag = put_message if_not_exists (has_ttl msg.ttl_seconds) in
      record {
        bytes = frame (
            u8 tag
            ∷ text msg.key
            ∷ u64 msg.size
            ∷ put_ttl (has_ttl msg.ttl_seconds) msg.ttl_seconds
            ∷ []);
        sends =
            any_put_frame msg.key msg.size if_not_exists msg.ttl_seconds
            ∙ rw (write_text valid_utf8 h.key) refl;
        reads = tag-Reads tag (
            rw (put_body if_not_exists (has_ttl msg.ttl_seconds))
              (request-Reads (put if_not_exists) (put_req_body-Reads valid_utf8 msg h)));
      }

  descriptor_body :
      (segs : List Segment) (stripes : List ℕ)
      → recv_body valid_utf8 (descriptor_tag segs stripes) ≡ (do
        req ← recv_descriptor_get_req_body valid_utf8 (descriptor_tag segs stripes)
        pure (get_descriptor req))
  unfolding recv_body descriptor_tag
  descriptor_body [] [] = refl
  descriptor_body [] (i ∷ stripes) = refl
  descriptor_body (seg ∷ segs) stripes = refl

  descriptor_served :
      (msg : DescriptorGetReqMsg)
      → IsDescriptorGetReq valid_utf8 msg
      → Carries (send_descriptor_get_req msg) (next_request valid_utf8) (get_descriptor msg)
  unfolding send_descriptor_get_req
  descriptor_served msg h =
      let l = lists_trip msg.dst_segments msg.stripes h.lists in
      let tag = descriptor_tag msg.dst_segments msg.stripes in
      record {
        bytes = u8 tag ++ body valid_utf8 msg (l.first ++ l.second);
        sends =
            rw
              (
                write_text valid_utf8 h.key,
                write_text valid_utf8 h.object_handle,
                write_text valid_utf8 h.content_etag,
                l.sends,
              )
              refl;
        reads = tag-Reads tag (
            rw (descriptor_body msg.dst_segments msg.stripes)
              (request-Reads get_descriptor (body-Reads valid_utf8 msg h l)));
      }

  -- A GET of the client by a descriptor, of the whole object or of some stripes, whose request fits
  -- the wire, is built, and the server's loop takes it for that request.
  pub served_descriptor :
      (d : ObjectDescriptor) (stripes : List ℕ) (addr rkey max_size : ℕ)
      → IsDescriptorGetReq valid_utf8 (wanted d stripes [] addr rkey max_size)
      → Carries
          (get_descriptor_stripes_into d stripes addr rkey max_size)
          (next_request valid_utf8)
          (get_descriptor (wanted d stripes [] addr rkey max_size))
  served_descriptor d stripes addr rkey max_size h =
      rw (stripes_frame d stripes addr rkey max_size) (descriptor_served _ h)

  -- A GET of the client into scattered segments, whose request fits the wire, is built, and the
  -- server's loop takes it for that request, with every stripe and every segment.
  pub served_segments :
      (d : ObjectDescriptor) (stripes : List ℕ) (seg : Segment) (segs : List Segment)
      → IsDescriptorGetReq valid_utf8
          (wanted d stripes (seg ∷ segs) seg.addr seg.rkey (total_len (seg ∷ segs)))
      → Carries (get_descriptor_stripes_sge d stripes (seg ∷ segs)) (next_request valid_utf8) (
          get_descriptor (wanted d stripes (seg ∷ segs) seg.addr seg.rkey (total_len (seg ∷ segs))))
  served_segments d stripes seg segs h =
      rw (segments_frame d stripes seg segs) (descriptor_served _ h)

  -- A stripe PUT of the client, of at least one stripe, whose request fits the wire, is built, and the
  -- server's loop takes it for that request.
  pub served_put_stripes :
      (d : ObjectDescriptor) (stripe : ℕ × ℕ) (stripes : List (ℕ × ℕ))
      → IsPutStripesReq valid_utf8 (pushed d (stripe ∷ stripes))
      → Carries
          (put_stripes_from d (stripe ∷ stripes))
          (next_request valid_utf8)
          (put_stripes (pushed d (stripe ∷ stripes)))
  unfolding send_put_stripes_req recv_body
  served_put_stripes d stripe stripes h = record {
    bytes = _;
    sends =
        put_stripes_frame d stripe stripes
        ∙ rw
            (
              write_text valid_utf8 h.key,
              write_text valid_utf8 h.object_handle,
              count_u16-ok (length (stripe ∷ stripes)) h.few,
            )
            refl;
    reads = tag-Reads msg_put_stripes_req (
        request-Reads put_stripes
          (put_stripes_body-Reads valid_utf8 (pushed d (stripe ∷ stripes)) h));
  }
