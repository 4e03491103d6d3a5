-- ===== src/Wire/Tests.antt =====
-- Frames byte by byte, and an instance of each theorem of the protocol.
use context_store.Prelude.{
  ℕ, ◌^◌, ◌<◌, Bool, true, ◌&&◌, List, [], ◌∷◌, ◌++◌, ltb, ◌≡◌, refl, arith,
}
use context_store.Prelude.Int.{negsuc}
use context_store.Wire
use context_store.Wire.Client.{
  ObjectDescriptor, build_get_request, get_descriptor_stripes_into, get_descriptor_stripes_sge,
  put_stripes_from, put_key_from, total_len,
}
use context_store.Wire.Built.{wanted, pushed}
use context_store.Wire.Codec.{ok, err, closed, bad_tag, bad_utf8}
use context_store.Wire.Descriptor.{Segment}
use context_store.Wire.DescriptorTrip.{IsDescriptorGetReq, IsSegment, HasLists}
use context_store.Wire.Fields.{IsText, Carries}
use context_store.Wire.Get.{
  QpInfo, GetReqMsg, GetRespMsg, send_hello, recv_hello, send_get_resp, recv_get_resp,
}
use context_store.Wire.Put.{PutReqMsg, PutReadyMsg, send_put_req, send_put_ready, recv_put_ready}
use context_store.Wire.PutTrip.{put_stripes_resp_trip}
use context_store.Wire.Serve.{Request, put, put_stripes, get_descriptor, get, next_request, hung_up}
use context_store.Wire.ServeTrip.{
  served_get, served_put, served_descriptor, served_segments, served_put_stripes,
}
use context_store.Wire.Stripes.{PutStripeLocation, send_put_stripes_resp, recv_put_stripes_resp}

program : Unit {0}
unfolding build_get_request next_request Wire.Codec.to_le_bytes Wire.Codec.from_le_bytes
    Wire.Codec.read_exact Wire.Codec.read_word Wire.Codec.read_string_u16 Wire.Get.recv_get_req_body
    Wire.Serve.recv_body Wire.Client.push_string Wire.Put.recv_put_req_body Wire.Put.read_ttl
    total_len
program = tt

-- A test of text that is right for ASCII.
abbrev is_ascii : List ℕ → Bool
is_ascii [] = true
is_ascii (b ∷ bytes) = ltb b 128 && is_ascii bytes

abbrev key_bytes : List ℕ
key_bytes = 107 ∷ 58 ∷ 49 ∷ []

key-IsText : IsText is_ascii key_bytes
key-IsText = record { short = omega arith; utf8 = refl }

abbrev get_bytes : List ℕ
get_bytes =
    2 ∷ 3 ∷ 0 ∷ 107 ∷ 58 ∷ 49 ∷ 0 ∷ 16 ∷ 0 ∷ 0 ∷ 0 ∷ 0 ∷ 0 ∷ 0 ∷ 7 ∷ 0 ∷ 0 ∷ 0 ∷ 0 ∷ 32 ∷ 0 ∷ 0 ∷ 0
    ∷ 0 ∷ 0 ∷ 0 ∷ []

abbrev get_msg : GetReqMsg
get_msg = record { key = key_bytes; dst_addr = 4096; dst_rkey = 7; max_size = 8192 }

built_run : build_get_request key_bytes 4096 7 8192 ≡ ok get_bytes
unfolding program
built_run = refl

next_run : next_request is_ascii (get_bytes ++ (99 ∷ [])) ≡ ok (get get_msg, 99 ∷ [])
unfolding program
next_run = refl

-- An unknown tag, a stream that ends in a request or before one, and a key that is no text.
refused_run :
    (next_request is_ascii (200 ∷ []) ≡ err bad_tag)
    × (next_request is_ascii (4 ∷ 3 ∷ []) ≡ err closed)
    × (next_request is_ascii [] ≡ ok (hung_up, []))
    × (next_request is_ascii (2 ∷ 1 ∷ 0 ∷ 200 ∷ []) ≡ err bad_utf8)
unfolding program
refused_run = (refl, refl, refl, refl)

served_get_example :
    Carries (build_get_request key_bytes 4096 7 8192) (next_request is_ascii) (get get_msg)
served_get_example = served_get is_ascii get_msg (record {
  key = key-IsText;
  dst_addr = omega arith;
  dst_rkey = omega arith;
  max_size = omega arith;
})

-- A conditional PUT with a time to live before 1970.
abbrev put_msg : PutReqMsg
put_msg = record { key = key_bytes; size = 65536; ttl_seconds = negsuc 4 }

served_put_example :
    Carries
      (put_key_from key_bytes 65536 true (negsuc 4))
      (next_request is_ascii)
      (put true put_msg)
served_put_example =
    served_put is_ascii true put_msg
      (record { key = key-IsText; size = omega arith; ttl_seconds = omega arith })

abbrev descriptor : ObjectDescriptor
descriptor = record {
  key = key_bytes;
  object_handle = 111 ∷ [];
  object_generation = 5;
  content_etag = [];
  layout_version = 1;
  size = 8192;
  is_striped = true;
  stripe_count = 2;
  chunk_size = 4096;
}

abbrev segment : Segment
segment = record { addr = 4096; rkey = 7; len = 8192 }

handle-IsText : IsText is_ascii (111 ∷ [])
handle-IsText = record { short = omega arith; utf8 = refl }

empty-IsText : IsText is_ascii []
empty-IsText = record { short = omega arith; utf8 = refl }

segment-IsSegment : IsSegment segment
segment-IsSegment = record { addr = omega arith; rkey = omega arith; len = omega arith }

stripes-IsDescriptorGetReq :
    (segs : List Segment) (addr rkey max_size : ℕ)
    → addr < 2 ^ 64
    → rkey < 2 ^ 32
    → max_size < 2 ^ 64
    → HasLists segs (1 ∷ [])
    → IsDescriptorGetReq is_ascii (wanted descriptor (1 ∷ []) segs addr rkey max_size)
stripes-IsDescriptorGetReq segs addr rkey max_size a r m h = record {
  key = key-IsText;
  object_handle = handle-IsText;
  object_generation = omega arith;
  content_etag = empty-IsText;
  layout_version = omega arith;
  size = omega arith;
  stripe_count = omega arith;
  chunk_size = omega arith;
  dst_addr = a;
  dst_rkey = r;
  max_size = m;
  lists = h;
}

served_descriptor_example :
    Carries
      (get_descriptor_stripes_into descriptor (1 ∷ []) 4096 7 8192)
      (next_request is_ascii)
      (get_descriptor (wanted descriptor (1 ∷ []) [] 4096 7 8192))
served_descriptor_example = served_descriptor is_ascii descriptor (1 ∷ []) 4096 7 8192 (
    stripes-IsDescriptorGetReq [] 4096 7 8192 (omega arith) (omega arith) (omega arith) (record {
      few_stripes = omega arith;
      few_segments = omega arith;
      stripe_words = (omega arith, tt);
      segment_words = tt;
    }))

served_segments_example :
    Carries
      (get_descriptor_stripes_sge descriptor (1 ∷ []) (segment ∷ []))
      (next_request is_ascii)
      (get_descriptor (wanted descriptor (1 ∷ []) (segment ∷ []) 4096 7 8192))
unfolding program
served_segments_example = served_segments is_ascii descriptor (1 ∷ []) segment [] (
    stripes-IsDescriptorGetReq (segment ∷ []) 4096 7 8192 (omega arith) (omega arith) (omega arith)
      (record {
        few_stripes = omega arith;
        few_segments = omega arith;
        stripe_words = (omega arith, tt);
        segment_words = (segment-IsSegment, tt);
      }))

abbrev some_stripes : List (ℕ × ℕ)
some_stripes = (0, 4096) ∷ (1, 4096) ∷ []

served_put_stripes_example :
    Carries
      (put_stripes_from descriptor some_stripes)
      (next_request is_ascii)
      (put_stripes (pushed descriptor some_stripes))
served_put_stripes_example =
    served_put_stripes is_ascii descriptor (0, 4096) ((1, 4096) ∷ [])
      (record {
        key = key-IsText;
        object_handle = handle-IsText;
        object_generation = omega arith;
        layout_version = omega arith;
        chunk_size = omega arith;
        total_size = omega arith;
        few = omega arith;
        words = ((omega arith, omega arith), ((omega arith, omega arith), tt));
      })

abbrev location : PutStripeLocation
location = record { stripe_index = 1; device_id = 3; storage_handle = 104 ∷ []; checksum = [] }

put_stripes_resp_trip_example :
    Carries
      (send_put_stripes_resp (record { stored = true; stripes = location ∷ [] }))
      (recv_put_stripes_resp is_ascii)
      (record { stored = true; stripes = location ∷ [] })
put_stripes_resp_trip_example =
    put_stripes_resp_trip is_ascii (record { stored = true; stripes = location ∷ [] }) (omega arith)
      (
        record {
          words = (omega arith, omega arith);
          storage_handle = record { short = omega arith; utf8 = refl };
          checksum = empty-IsText;
        },
        tt,
      )

abbrev queue_pair : QpInfo
queue_pair = record {
  qpn = 17;
  psn = 9;
  gid = 0 ∷ 1 ∷ 2 ∷ 3 ∷ 4 ∷ 5 ∷ 6 ∷ 7 ∷ 8 ∷ 9 ∷ 10 ∷ 11 ∷ 12 ∷ 13 ∷ 14 ∷ 15 ∷ [];
}

abbrev get_resp : GetRespMsg
get_resp = record { found = true; bytes_written = 8192; num_chunks = 2 }

abbrev granted_msg : PutReadyMsg
granted_msg = record { granted = true; dst_addr = 4096; dst_rkey = 7 }
