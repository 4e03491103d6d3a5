-- ===== src/Wire/PutTrip.antt =====
-- The messages of PUT and of the stripe PUT arrive as they were sent.
use context_store.Prelude.{
  ℕ, zero, suc, ◌≤◌, Bool, true, false, List, [], ◌∷◌, map, length, ◌≡◌, refl, arith, All,
}
use context_store.Prelude.Int.{ℤ, pos, negsuc}
use context_store.Wire.Codec.{ok, u8, u16, u32, u64, flag, frame, i64_bits}
use context_store.Wire.DescriptorTrip.{All-map}
use context_store.Wire.Fields.{
  IsU32, IsU64, IsText, text, u32-Reads, u64-Reads, text-Reads, write_text, Carries,
}
use context_store.Wire.Put.{
  PutReqMsg, has_ttl, put_ttl, read_ttl, recv_put_req_body, PutReadyMsg, send_put_ready,
  recv_put_ready, msg_put_ready, send_put_resp, send_put_result, recv_put_resp, msg_put_resp,
}
use context_store.Wire.Reads.{
  IsI64, Reads, Reads-pure, Reads-bind, read_byte-Reads, read_flag-Reads, read_word-Reads,
  read_many-Reads, i64_of_bits-bits, count_u16-ok,
}
use context_store.Wire.Stripes.{
  PutStripesReqMsg, PutStripesRespMsg, PutStripeLocation, put_stripe, read_stripe,
  recv_put_stripes_req_body, put_location, put_locations, send_put_stripes_resp, read_location,
  recv_put_stripes_resp, msg_put_stripes_resp,
}

ttl_bits-Reads : (ttl : ℤ) → IsI64 ttl → Reads (read_ttl true) (u64 (i64_bits ttl)) ttl
unfolding read_ttl
ttl_bits-Reads ttl h =
    let (back, fits) = i64_of_bits-bits ttl h in
    record { at = λ rest. rw ((u64-Reads (i64_bits ttl) fits).at rest, back) refl }

-- No time to live is sent for 0, and none is read as 0.
ttl-Reads : (ttl : ℤ) → IsI64 ttl → Reads (read_ttl (has_ttl ttl)) (put_ttl (has_ttl ttl) ttl) ttl
unfolding has_ttl read_ttl
ttl-Reads (pos zero) h = Reads-pure (pos 0)
ttl-Reads (pos (suc n)) h = ttl_bits-Reads (pos (suc n)) h
ttl-Reads (negsuc n) h = ttl_bits-Reads (negsuc n) h

module _ (valid_utf8 : List ℕ → Bool) where
  pub record IsPutReq (msg : PutReqMsg) : Type 0 where
    pub key : IsText valid_utf8 msg.key
    pub size : IsU64 msg.size
    pub ttl_seconds : IsI64 msg.ttl_seconds

  pub put_req_body-Reads :
      (msg : PutReqMsg)
      → IsPutReq msg
      → Reads
          (recv_put_req_body valid_utf8 (has_ttl msg.ttl_seconds))
          (frame
            (text msg.key ∷ u64 msg.size ∷ put_ttl (has_ttl msg.ttl_seconds) msg.ttl_seconds ∷ []))
          msg
  unfolding recv_put_req_body
  put_req_body-Reads msg h = Reads-bind _ (text-Reads valid_utf8 h.key) (
      Reads-bind _ (u64-Reads msg.size h.size)
        (Reads-bind _ (ttl-Reads msg.ttl_seconds h.ttl_seconds) (Reads-pure msg)))

-- The answer to a PUT request, with numbers that fit their words, arrives as it was sent.
put_ready_trip :
    (msg : PutReadyMsg)
    → IsU64 msg.dst_addr
    → IsU32 msg.dst_rkey
    → Reads recv_put_ready (send_put_ready msg) msg
unfolding send_put_ready recv_put_ready
put_ready_trip msg h k = Reads-bind _ (read_byte-Reads msg_put_ready) (
    Reads-bind _ (read_flag-Reads msg.granted) (
      Reads-bind _ (u64-Reads msg.dst_addr h)
        (Reads-bind _ (u32-Reads msg.dst_rkey k) (Reads-pure msg))))

-- Stored or failed, the result of a PUT is read as such.
put_resp_trip : (done : Bool) → Reads recv_put_resp (send_put_resp done) done
unfolding send_put_resp send_put_result recv_put_resp
put_resp_trip true = Reads-bind _ (read_byte-Reads msg_put_resp) (read_flag-Reads true)
put_resp_trip false = Reads-bind _ (read_byte-Reads msg_put_resp) (read_flag-Reads false)

abbrev pub IsStripe : ℕ × ℕ → Type 0
IsStripe (idx, len) = IsU32 idx × IsU64 len

stripe-Reads : (s : ℕ × ℕ) → IsStripe s → Reads read_stripe (put_stripe s) s
unfolding read_stripe
stripe-Reads (idx, len) h =
    Reads-bind _ (u32-Reads idx h.0) (Reads-bind _ (u64-Reads len h.1) (Reads-pure (idx, len)))

module _ (valid_utf8 : List ℕ → Bool) where
  pub record IsPutStripesReq (msg : PutStripesReqMsg) : Type 0 where
    pub key : IsText valid_utf8 msg.key
    pub object_handle : IsText valid_utf8 msg.object_handle
    pub object_generation : IsU64 msg.object_generation
    pub layout_version : IsU64 msg.layout_version
    pub chunk_size : IsU64 msg.chunk_size
    pub total_size : IsU64 msg.total_size
    pub few : length msg.stripes ≤ 65535
    pub words : All IsStripe msg.stripes

  pub put_stripes_body-Reads :
      (msg : PutStripesReqMsg)
      → IsPutStripesReq msg
      → Reads
          (recv_put_stripes_req_body valid_utf8)
          (frame (
            text msg.key
            ∷ text msg.object_handle
            ∷ u64 msg.object_generation
            ∷ u64 msg.layout_version
            ∷ u64 msg.chunk_size
            ∷ u64 msg.total_size
            ∷ u16 (length msg.stripes)
            ∷ frame (map put_stripe msg.stripes)
            ∷ []))
          msg
  unfolding recv_put_stripes_req_body
  put_stripes_body-Reads msg h = Reads-bind _ (text-Reads valid_utf8 h.key) (
      Reads-bind _ (text-Reads valid_utf8 h.object_handle) (
        Reads-bind _ (u64-Reads msg.object_generation h.object_generation) (
          Reads-bind _ (u64-Reads msg.layout_version h.layout_version) (
            Reads-bind _ (u64-Reads msg.chunk_size h.chunk_size) (
              Reads-bind _ (u64-Reads msg.total_size h.total_size) (
                Reads-bind _ (read_word-Reads 2 (length msg.stripes) (omega (arith, h.few))) (
                  Reads-bind _
                    (read_many-Reads read_stripe put_stripe msg.stripes
                      (All-map _ _ msg.stripes stripe-Reads h.words))
                    (Reads-pure msg))))))))

  pub record IsLocation (loc : PutStripeLocation) : Type 0 where
    pub words : IsU32 loc.stripe_index × IsU32 loc.device_id
    pub storage_handle : IsText valid_utf8 loc.storage_handle
    pub checksum : IsText valid_utf8 loc.checksum

  abbrev location : PutStripeLocation → List ℕ
  location loc =
      frame (
        u32 loc.stripe_index ∷ u32 loc.device_id ∷ text loc.storage_handle ∷ text loc.checksum ∷ [])

  location-Reads :
      (loc : PutStripeLocation)
      → IsLocation loc
      → Reads (read_location valid_utf8) (location loc) loc
  unfolding read_location
  location-Reads loc h = Reads-bind _ (u32-Reads loc.stripe_index h.words.0) (
      Reads-bind _ (u32-Reads loc.device_id h.words.1) (
        Reads-bind _ (text-Reads valid_utf8 h.storage_handle)
          (Reads-bind _ (text-Reads valid_utf8 h.checksum) (Reads-pure loc))))

  locations-ok :
      (locs : List PutStripeLocation)
      → All IsLocation locs
      → put_locations locs ≡ ok (frame (map location locs))
  unfolding put_locations put_location
  locations-ok [] h = refl
  locations-ok (loc ∷ locs) h =
      rw
        (
          write_text valid_utf8 h.0.storage_handle,
          write_text valid_utf8 h.0.checksum,
          locations-ok locs h.1,
        )
        refl

  -- The acknowledgement of a stripe PUT, with at most 65535 stripes, whose handles and checksums are
  -- text of at most 65535 bytes and whose numbers fit their words, is sent, and arrives as it was
  -- sent.
  pub put_stripes_resp_trip :
      (msg : PutStripesRespMsg)
      → length msg.stripes ≤ 65535
      → All IsLocation msg.stripes
      → Carries (send_put_stripes_resp msg) (recv_put_stripes_resp valid_utf8) msg
  unfolding send_put_stripes_resp recv_put_stripes_resp
  put_stripes_resp_trip msg short h = record {
    bytes = frame (
        u8 msg_put_stripes_resp
        ∷ flag msg.stored
        ∷ u16 (length msg.stripes)
        ∷ frame (map location msg.stripes)
        ∷ []);
    sends = rw (count_u16-ok (length msg.stripes) short, locations-ok msg.stripes h) refl;
    reads = Reads-bind _ (read_byte-Reads msg_put_stripes_resp) (
        Reads-bind _ (read_flag-Reads msg.stored) (
          Reads-bind _ (read_word-Reads 2 (length msg.stripes) (omega arith)) (
            Reads-bind _
              (read_many-Reads (read_location valid_utf8) location msg.stripes
                (All-map _ _ msg.stripes location-Reads h))
              (Reads-pure msg))));
  }
