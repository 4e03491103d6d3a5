-- ===== src/Wire/Descriptor.antt =====
-- The descriptor GET of kv-service/server/src/rdma/wire.rs: the whole object, a subset of its
-- stripes, or a subset into scattered segments.
use context_store.Prelude.{
  ℕ, zero, suc, Bool, true, false, not, List, [], ◌∷◌, ◌++◌, map, length, ◌==◌, ◌||◌, if◌then◌else◌,
}
use context_store.Wire.Codec.{
  Result, ok, no_segments, bind, Reader, pure, raise, ◌>>=◌, read_word, read_flag, flag, u8, u32,
  u64, frame, read_many, write_string_u16, count_u16, read_string_u16,
}

abbrev pub msg_get_descriptor_req : ℕ
msg_get_descriptor_req = 8

abbrev pub msg_get_descriptor_stripes_req : ℕ
msg_get_descriptor_stripes_req = 12

abbrev pub msg_get_descriptor_stripes_sge_req : ℕ
msg_get_descriptor_stripes_sge_req = 15

-- The tags that lead to a descriptor GET.
abbrev pub is_descriptor_tag : ℕ → Bool
is_descriptor_tag tag =
    tag == msg_get_descriptor_req
    || tag == msg_get_descriptor_stripes_req
    || tag == msg_get_descriptor_stripes_sge_req

-- `Vec::is_empty`
abbrev pub is_empty {ℓ} : {A : Type ℓ} → List A → Bool
is_empty [] = true
is_empty (x ∷ xs) = false

pub record Segment : Type 0 where
  pub addr : ℕ
  pub rkey : ℕ
  pub len : ℕ

pub record DescriptorGetReqMsg : Type 0 where
  pub key : List ℕ
  pub object_handle : List ℕ
  pub object_generation : ℕ
  pub content_etag : List ℕ
  pub layout_version : ℕ
  pub size : ℕ
  pub is_striped : Bool
  pub stripe_count : ℕ
  pub chunk_size : ℕ
  pub dst_addr : ℕ
  pub dst_rkey : ℕ
  pub max_size : ℕ
  pub stripes : List ℕ
  pub dst_segments : List Segment

abbrev pub put_segment : Segment → List ℕ
put_segment seg = frame (u64 seg.addr ∷ u32 seg.rkey ∷ u64 seg.len ∷ [])

unfoldable pub read_segment : Reader Segment
read_segment = do
  addr ← read_word 8
  rkey ← read_word 4
  len ← read_word 8
  pure (record { addr = addr; rkey = rkey; len = len })

unfoldable pub descriptor_tag : List Segment → List ℕ → ℕ
descriptor_tag dst_segments stripes =
    if is_empty dst_segments
    then (if is_empty stripes then msg_get_descriptor_req else msg_get_descriptor_stripes_req)
    else msg_get_descriptor_stripes_sge_req

-- The stripe list, with its count.
unfoldable pub put_stripe_list : List ℕ → Result (List ℕ)
put_stripe_list stripes =
    bind (count_u16 (length stripes)) λ count. ok (count ++ frame (map u32 stripes))

unfoldable pub put_segment_list : List Segment → Result (List ℕ)
put_segment_list segs =
    bind (count_u16 (length segs)) λ count. ok (count ++ frame (map put_segment segs))

-- The lists that follow the fixed part: the stripes are written if there are stripes or segments,
-- and the segments if there are any.
unfoldable pub put_lists : List Segment → List ℕ → Result (List ℕ)
unfolding put_stripe_list put_segment_list
put_lists (seg ∷ segs) stripes =
    bind (put_stripe_list stripes)
      λ listed. bind (put_segment_list (seg ∷ segs)) λ scattered. ok (listed ++ scattered)
put_lists [] (i ∷ stripes) = put_stripe_list (i ∷ stripes)
put_lists [] [] = ok []

unfoldable pub send_descriptor_get_req : DescriptorGetReqMsg → Result (List ℕ)
unfolding descriptor_tag put_lists
send_descriptor_get_req msg = bind (write_string_u16 msg.key) λ key.
    bind (write_string_u16 msg.object_handle) λ handle.
      bind (write_string_u16 msg.content_etag) λ etag.
        bind (put_lists msg.dst_segments msg.stripes) λ lists. ok (
          frame (
            u8 (descriptor_tag msg.dst_segments msg.stripes)
            ∷ key
            ∷ handle
            ∷ u64 msg.object_generation
            ∷ etag
            ∷ u64 msg.layout_version
            ∷ u64 msg.size
            ∷ flag msg.is_striped
            ∷ u32 msg.stripe_count
            ∷ u64 msg.chunk_size
            ∷ u64 msg.dst_addr
            ∷ u32 msg.dst_rkey
            ∷ u64 msg.max_size
            ∷ lists
            ∷ []))

unfoldable pub read_stripe_list : Bool → Reader (List ℕ)
read_stripe_list true = do count ← read_word 2; read_many count (read_word 4)
read_stripe_list false = pure []

-- An empty list of segments is refused.
unfoldable pub read_segments : ℕ → Reader (List Segment)
unfolding read_segment
read_segments zero = raise no_segments
read_segments (suc n) = read_many (suc n) read_segment

unfoldable pub read_segment_list : Bool → Reader (List Segment)
unfolding read_segments
read_segment_list true = do count ← read_word 2; read_segments count
read_segment_list false = pure []

module _ (valid_utf8 : List ℕ → Bool) where
  unfoldable pub recv_descriptor_get_req_body_ext : Bool → Bool → Reader DescriptorGetReqMsg
  unfolding read_stripe_list read_segment_list
  recv_descriptor_get_req_body_ext with_stripes with_segments = do
    key ← read_string_u16 valid_utf8
    object_handle ← read_string_u16 valid_utf8
    object_generation ← read_word 8
    content_etag ← read_string_u16 valid_utf8
    layout_version ← read_word 8
    size ← read_word 8
    is_striped ← read_flag
    stripe_count ← read_word 4
    chunk_size ← read_word 8
    dst_addr ← read_word 8
    dst_rkey ← read_word 4
    max_size ← read_word 8
    stripes ← read_stripe_list with_stripes
    dst_segments ← read_segment_list with_segments
    pure (record {
      key = key;
      object_handle = object_handle;
      object_generation = object_generation;
      content_etag = content_etag;
      layout_version = layout_version;
      size = size;
      is_striped = is_striped;
      stripe_count = stripe_count;
      chunk_size = chunk_size;
      dst_addr = dst_addr;
      dst_rkey = dst_rkey;
      max_size = max_size;
      stripes = stripes;
      dst_segments = dst_segments;
    })

  -- The branch of `handle_client` behind those tags, with the flags that it passes on.
  unfoldable pub recv_descriptor_get_req_body : ℕ → Reader DescriptorGetReqMsg
  unfolding recv_descriptor_get_req_body_ext
  recv_descriptor_get_req_body tag =
      recv_descriptor_get_req_body_ext (not (tag == msg_get_descriptor_req))
        (tag == msg_get_descriptor_stripes_sge_req)
