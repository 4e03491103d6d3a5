-- ===== src/Wire/Client.antt =====
-- The frames that kv-service/client-rs/src/rdma.rs builds, by hand, for the requests of the
-- protocol. A frame is written to the stream only once it is complete.
use context_store.Prelude.{
  ℕ, ◌+◌, ◌%◌, ◌^◌, Bool, true, false, List, [], ◌∷◌, ◌++◌, map, length, ltb, ◌||◌, ◌==◌,
  if◌then◌else◌,
}
use context_store.Prelude.Int.{ℤ}
use context_store.Wire.Codec.{
  Result, ok, err, bind, flag, u8, u16, u32, u64, i64_bits, frame, too_long, too_many, no_segments,
  no_stripes,
}
use context_store.Wire.Descriptor.{
  Segment, put_segment, is_empty, msg_get_descriptor_req, msg_get_descriptor_stripes_req,
  msg_get_descriptor_stripes_sge_req,
}
use context_store.Wire.Get.{msg_get_req}
use context_store.Wire.Put.{
  has_ttl, msg_put_req, msg_put_if_absent_req, msg_put_with_options_req,
  msg_put_if_absent_with_options_req,
}
use context_store.Wire.Stripes.{put_stripe, msg_put_stripes_req}

-- The fields of the descriptor message that the frames use, with the canonical key.
pub record ObjectDescriptor : Type 0 where
  pub key : List ℕ
  pub object_handle : List ℕ
  pub object_generation : ℕ
  pub content_etag : List ℕ
  pub layout_version : ℕ
  pub size : ℕ
  pub is_striped : Bool
  pub stripe_count : ℕ
  pub chunk_size : ℕ

-- `push_string(target, value)` leaves the longer target.
unfoldable pub push_string : List ℕ → List ℕ → Result (List ℕ)
push_string target value =
    if ltb 65535 (length value) then err too_long else ok (target ++ (u16 (length value) ++ value))

-- `u16::try_from(len)?` pushed on the target
unfoldable pub push_count : List ℕ → ℕ → Result (List ℕ)
push_count target n = if ltb 65535 n then err too_many else ok (target ++ u16 n)

unfoldable pub build_get_request : List ℕ → ℕ → ℕ → ℕ → Result (List ℕ)
unfolding push_string
build_get_request key addr rkey max_size =
    bind (push_string (u8 msg_get_req) key)
      λ request. ok (request ++ frame (u64 addr ∷ u32 rkey ∷ u64 max_size ∷ []))

-- The frame without its first byte, which the callers may overwrite.
unfoldable pub build_descriptor_get_request : ObjectDescriptor → ℕ → ℕ → ℕ → Result (ℕ × List ℕ)
unfolding push_string
build_descriptor_get_request descriptor addr rkey max_size =
    bind (push_string [] descriptor.key) λ key.
      bind (push_string key descriptor.object_handle) λ handle.
        bind (push_string (handle ++ u64 descriptor.object_generation) descriptor.content_etag)
          λ etag. ok (
            msg_get_descriptor_req,
            etag
                ++ frame (
                    u64 descriptor.layout_version
                    ∷ u64 descriptor.size
                    ∷ flag descriptor.is_striped
                    ∷ u32 descriptor.stripe_count
                    ∷ u64 descriptor.chunk_size
                    ∷ u64 addr
                    ∷ u32 rkey
                    ∷ u64 max_size
                    ∷ []),
          )

unfoldable pub get_descriptor_into : ObjectDescriptor → ℕ → ℕ → ℕ → Result (List ℕ)
unfolding build_descriptor_get_request
get_descriptor_into descriptor addr rkey available =
    bind (build_descriptor_get_request descriptor addr rkey available)
      λ (tag, request). ok (tag ∷ request)

-- `request[0] = tag`, and the list of the stripes.
unfoldable pub get_descriptor_stripes_into : ObjectDescriptor → List ℕ → ℕ → ℕ → ℕ → Result (List ℕ)
unfolding build_descriptor_get_request get_descriptor_into push_count
get_descriptor_stripes_into descriptor stripes addr rkey available =
    if is_empty stripes
    then get_descriptor_into descriptor addr rkey available
    else (bind (build_descriptor_get_request descriptor addr rkey available) λ (tag, request).
        bind (push_count request (length stripes))
          λ counted. ok (msg_get_descriptor_stripes_req ∷ counted ++ frame (map u32 stripes)))

-- `segments.iter().map(|(_, _, len)| *len).sum()`, which wraps
unfoldable pub total_len : List Segment → ℕ
total_len [] = 0
total_len (seg ∷ segs) = (seg.len + total_len segs) % 2 ^ 64

unfoldable pub get_descriptor_stripes_sge :
    ObjectDescriptor → List ℕ → List Segment → Result (List ℕ)
unfolding build_descriptor_get_request push_count total_len
get_descriptor_stripes_sge descriptor stripes [] = err no_segments
get_descriptor_stripes_sge descriptor stripes (seg ∷ segs) =
    bind (build_descriptor_get_request descriptor seg.addr seg.rkey (total_len (seg ∷ segs)))
      λ (tag, request). bind (push_count request (length stripes)) λ counted.
        bind (push_count (counted ++ frame (map u32 stripes)) (length (seg ∷ segs))) λ listed.
          ok (msg_get_descriptor_stripes_sge_req ∷ listed ++ frame (map put_segment (seg ∷ segs)))

unfoldable pub build_put_request : ℕ → List ℕ → ℕ → ℤ → Result (List ℕ)
unfolding push_string
build_put_request message key size ttl_seconds =
    let with_options =
      message == msg_put_with_options_req || message == msg_put_if_absent_with_options_req in
    bind (push_string (u8 message) key) λ request.
      ok ((request ++ u64 size) ++ (if with_options then u64 (i64_bits ttl_seconds) else []))

-- The tag that `put_key_from` chooses.
unfoldable pub put_message : Bool → Bool → ℕ
put_message true true = msg_put_if_absent_with_options_req
put_message true false = msg_put_if_absent_req
put_message false true = msg_put_with_options_req
put_message false false = msg_put_req

unfoldable pub put_key_from : List ℕ → ℕ → Bool → ℤ → Result (List ℕ)
unfolding build_put_request put_message has_ttl
put_key_from key size if_not_exists ttl_seconds =
    build_put_request (put_message if_not_exists (has_ttl ttl_seconds)) key size ttl_seconds

-- The request frame of `put_stripes_from`, for the index and the length of each stripe. A call without
-- a stripe is refused before anything is written.
unfoldable pub put_stripes_from : ObjectDescriptor → List (ℕ × ℕ) → Result (List ℕ)
unfolding push_string push_count
put_stripes_from descriptor [] = err no_stripes
put_stripes_from descriptor (stripe ∷ stripes) =
    bind (push_string (u8 msg_put_stripes_req) descriptor.key) λ key.
      bind (push_string key descriptor.object_handle) λ handle.
        bind
          (push_count
            (handle
              ++ frame (
                  u64 descriptor.object_generation
                  ∷ u64 descriptor.layout_version
                  ∷ u64 descriptor.chunk_size
                  ∷ u64 descriptor.size
                  ∷ []))
            (length (stripe ∷ stripes)))
          λ counted. ok (counted ++ frame (map put_stripe (stripe ∷ stripes)))
