-- ===== src/Wire/Stripes.antt =====
-- The stripe-subset PUT of kv-service/server/src/rdma/wire.rs.
use context_store.Prelude.{ℕ, Bool, List, [], ◌∷◌, ◌++◌, map, length, ◌==◌, if◌then◌else◌}
use context_store.Wire.Codec.{
  Result, ok, bad_tag, bind, Reader, pure, raise, ◌>>=◌, read_word, read_byte, read_flag, flag, u8,
  u32, u64, frame, read_many, write_string_u16, count_u16, read_string_u16,
}

abbrev pub msg_put_stripes_req : ℕ
msg_put_stripes_req = 13

abbrev pub msg_put_stripes_resp : ℕ
msg_put_stripes_resp = 14

pub record PutStripesReqMsg : Type 0 where
  pub key : List ℕ
  pub object_handle : List ℕ
  pub object_generation : ℕ
  pub layout_version : ℕ
  pub chunk_size : ℕ
  pub total_size : ℕ
  pub stripes : List (ℕ × ℕ)

abbrev pub put_stripe : ℕ × ℕ → List ℕ
put_stripe (idx, len) = frame (u32 idx ∷ u64 len ∷ [])

unfoldable pub read_stripe : Reader (ℕ × ℕ)
read_stripe = do idx ← read_word 4; len ← read_word 8; pure (idx, len)

unfoldable pub send_put_stripes_req : PutStripesReqMsg → Result (List ℕ)
send_put_stripes_req msg = bind (write_string_u16 msg.key) λ key.
    bind (write_string_u16 msg.object_handle) λ handle.
      bind (count_u16 (length msg.stripes)) λ count. ok (
        frame (
          u8 msg_put_stripes_req
          ∷ key
          ∷ handle
          ∷ u64 msg.object_generation
          ∷ u64 msg.layout_version
          ∷ u64 msg.chunk_size
          ∷ u64 msg.total_size
          ∷ count
          ∷ frame (map put_stripe msg.stripes)
          ∷ []))

pub record PutStripeLocation : Type 0 where
  pub stripe_index : ℕ
  pub device_id : ℕ
  pub storage_handle : List ℕ
  pub checksum : List ℕ

pub record PutStripesRespMsg : Type 0 where
  pub stored : Bool
  pub stripes : List PutStripeLocation

unfoldable pub put_location : PutStripeLocation → Result (List ℕ)
put_location loc = bind (write_string_u16 loc.storage_handle) λ handle.
    bind (write_string_u16 loc.checksum)
      λ checksum. ok (frame (u32 loc.stripe_index ∷ u32 loc.device_id ∷ handle ∷ checksum ∷ []))

unfoldable pub put_locations : List PutStripeLocation → Result (List ℕ)
unfolding put_location
put_locations [] = ok []
put_locations (loc ∷ locs) =
    bind (put_location loc) λ first. bind (put_locations locs) λ others. ok (first ++ others)

unfoldable pub send_put_stripes_resp : PutStripesRespMsg → Result (List ℕ)
unfolding put_locations
send_put_stripes_resp msg = bind (count_u16 (length msg.stripes)) λ count.
    bind (put_locations msg.stripes)
      λ locations. ok (frame (u8 msg_put_stripes_resp ∷ flag msg.stored ∷ count ∷ locations ∷ []))

module _ (valid_utf8 : List ℕ → Bool) where
  unfoldable pub recv_put_stripes_req_body : Reader PutStripesReqMsg
  unfolding read_stripe
  recv_put_stripes_req_body = do
    key ← read_string_u16 valid_utf8
    object_handle ← read_string_u16 valid_utf8
    object_generation ← read_word 8
    layout_version ← read_word 8
    chunk_size ← read_word 8
    total_size ← read_word 8
    count ← read_word 2
    stripes ← read_many count read_stripe
    pure (record {
      key = key;
      object_handle = object_handle;
      object_generation = object_generation;
      layout_version = layout_version;
      chunk_size = chunk_size;
      total_size = total_size;
      stripes = stripes;
    })

  unfoldable pub read_location : Reader PutStripeLocation
  read_location = do
    stripe_index ← read_word 4
    device_id ← read_word 4
    storage_handle ← read_string_u16 valid_utf8
    checksum ← read_string_u16 valid_utf8
    pure (record {
      stripe_index = stripe_index;
      device_id = device_id;
      storage_handle = storage_handle;
      checksum = checksum;
    })

  unfoldable pub recv_put_stripes_resp : Reader PutStripesRespMsg
  unfolding read_location
  recv_put_stripes_resp = do
    tag ← read_byte
    let body : Reader PutStripesRespMsg = do
      stored ← read_flag
      count ← read_word 2
      stripes ← read_many count read_location
      pure (record { stored = stored; stripes = stripes })
    if tag == msg_put_stripes_resp then body else raise bad_tag
