-- ===== src/Wire/Built.antt =====
-- The frames that the client builds by hand are those of the server's own senders.
use mathlib.Core.List.{append_assoc, append-nil}
use context_store.Prelude.{
  ℕ, Bool, true, false, List, [], ◌∷◌, length, ltb, ◌≡◌, refl, inl, inr, Bool-cases, ◌∙◌, ◌==◌,
  ◌||◌, if◌then◌else◌,
}
use context_store.Prelude.Int.{ℤ}
use context_store.Wire.Client.{
  ObjectDescriptor, push_string, push_count, build_get_request, build_descriptor_get_request,
  get_descriptor_into, get_descriptor_stripes_into, get_descriptor_stripes_sge, total_len,
  put_stripes_from, put_key_from, build_put_request, put_message,
}
use context_store.Wire.Codec.{
  Result, ok, err, bind, flag, u8, u32, u64, frame, write_string_u16, count_u16, i64_bits,
}
use context_store.Wire.Descriptor.{
  Segment, DescriptorGetReqMsg, send_descriptor_get_req, descriptor_tag, put_lists, put_stripe_list,
  put_segment_list, msg_get_descriptor_req,
}
use context_store.Wire.Get.{send_get_req}
use context_store.Wire.Put.{
  send_put_req, has_ttl, put_ttl, msg_put_with_options_req, msg_put_if_absent_with_options_req,
}
use context_store.Wire.Stripes.{PutStripesReqMsg, send_put_stripes_req}

-- The client's GET frame is the one that the server's sender of GET requests produces, with the same
-- error for a key that is too long.
pub get_frame :
    (key : List ℕ) (addr rkey max_size : ℕ)
    → build_get_request key addr rkey max_size
      ≡ send_get_req (record { key = key; dst_addr = addr; dst_rkey = rkey; max_size = max_size })
unfolding build_get_request send_get_req push_string write_string_u16
get_frame key addr rkey max_size = elim (Bool-cases (ltb 65535 (length key))) [
  | inl e ↦ rw e refl
  | inr e ↦ rw e (simp (append_assoc, append-nil))
]

-- The request that a descriptor GET of the client stands for.
abbrev pub wanted : ObjectDescriptor → List ℕ → List Segment → ℕ → ℕ → ℕ → DescriptorGetReqMsg
wanted d stripes segments addr rkey max_size = record {
  key = d.key;
  object_handle = d.object_handle;
  object_generation = d.object_generation;
  content_etag = d.content_etag;
  layout_version = d.layout_version;
  size = d.size;
  is_striped = d.is_striped;
  stripe_count = d.stripe_count;
  chunk_size = d.chunk_size;
  dst_addr = addr;
  dst_rkey = rkey;
  max_size = max_size;
  stripes = stripes;
  dst_segments = segments;
}

-- The fixed part, as the concatenation of its fields.
descriptor_head :
    (d : ObjectDescriptor) (addr rkey max_size : ℕ)
    → build_descriptor_get_request d addr rkey max_size ≡ (
        bind (write_string_u16 d.key) λ key. bind (write_string_u16 d.object_handle) λ handle.
          bind (write_string_u16 d.content_etag) λ etag. ok (
            msg_get_descriptor_req,
            frame (
                key
                ∷ handle
                ∷ u64 d.object_generation
                ∷ etag
                ∷ u64 d.layout_version
                ∷ u64 d.size
                ∷ flag d.is_striped
                ∷ u32 d.stripe_count
                ∷ u64 d.chunk_size
                ∷ u64 addr
                ∷ u32 rkey
                ∷ u64 max_size
                ∷ []),
          ))
unfolding build_descriptor_get_request push_string write_string_u16
descriptor_head d addr rkey max_size = elim (Bool-cases (ltb 65535 (length d.key))) [
  | inl e ↦ rw e refl
  | inr e ↦ elim (Bool-cases (ltb 65535 (length d.object_handle))) [
    | inl f ↦ rw (e, f) refl
    | inr f ↦ elim (Bool-cases (ltb 65535 (length d.content_etag))) [
      | inl g ↦ rw (e, f, g) refl
      | inr g ↦ rw (e, f, g) (simp (append_assoc, append-nil))
    ]
  ]
]

-- What follows three strings and what is made of them.
bind_three {ℓ κ μ} :
    {A : Type ℓ} {B : Type κ} {C : Type μ} (r s t : Result A) (f : A → A → A → B) (g : B → Result C)
    (h : A → A → A → Result C)
    → ((a b c : A) → g (f a b c) ≡ h a b c)
    → bind (bind r λ a. bind s λ b. bind t λ c. ok (f a b c)) g
      ≡ (bind r λ a. bind s λ b. bind t λ c. h a b c)
bind_three (ok a) (ok b) (ok c) f g h k = k a b c
bind_three (ok a) (ok b) (err e) f g h k = refl
bind_three (ok a) (err e) t f g h k = refl
bind_three (err e) s t f g h k = refl

-- The client's GET of a descriptor, of the whole object or of some of its stripes, is the server's
-- request with those stripes and without segments, with the same error.
pub stripes_frame :
    (d : ObjectDescriptor) (stripes : List ℕ) (addr rkey max_size : ℕ)
    → get_descriptor_stripes_into d stripes addr rkey max_size
      ≡ send_descriptor_get_req (wanted d stripes [] addr rkey max_size)
unfolding get_descriptor_stripes_into get_descriptor_into send_descriptor_get_req descriptor_tag
    put_lists put_stripe_list push_count count_u16
stripes_frame d [] addr rkey max_size = rw descriptor_head (
    bind_three (write_string_u16 d.key) (write_string_u16 d.object_handle)
      (write_string_u16 d.content_etag) _ _ _ λ key handle etag. refl)
stripes_frame d (i ∷ stripes) addr rkey max_size = rw descriptor_head (
    bind_three (write_string_u16 d.key) (write_string_u16 d.object_handle)
      (write_string_u16 d.content_etag) _ _ _
      λ key handle etag. elim (Bool-cases (ltb 65535 (length (i ∷ stripes)))) [
        | inl e ↦ rw e refl
        | inr e ↦ rw e (simp (append_assoc, append-nil))
      ])

-- The client's GET into scattered segments is the server's request with the stripes and the segments,
-- whose first segment is the destination, with the same error.
pub segments_frame :
    (d : ObjectDescriptor) (stripes : List ℕ) (seg : Segment) (segs : List Segment)
    → get_descriptor_stripes_sge d stripes (seg ∷ segs)
      ≡ send_descriptor_get_req
          (wanted d stripes (seg ∷ segs) seg.addr seg.rkey (total_len (seg ∷ segs)))
unfolding get_descriptor_stripes_sge send_descriptor_get_req descriptor_tag put_lists
    put_stripe_list put_segment_list push_count count_u16
segments_frame d stripes seg segs = rw descriptor_head (
    bind_three (write_string_u16 d.key) (write_string_u16 d.object_handle)
      (write_string_u16 d.content_etag) _ _ _
      λ key handle etag. elim (Bool-cases (ltb 65535 (length stripes))) [
        | inl e ↦ rw e refl
        | inr e ↦ elim (Bool-cases (ltb 65535 (length (seg ∷ segs)))) [
          | inl f ↦ rw (e, f) refl
          | inr f ↦ rw (e, f) (simp (append_assoc, append-nil))
        ]
      ])

-- The stripe PUT that the client's frame stands for.
abbrev pub pushed : ObjectDescriptor → List (ℕ × ℕ) → PutStripesReqMsg
pushed d stripes = record {
  key = d.key;
  object_handle = d.object_handle;
  object_generation = d.object_generation;
  layout_version = d.layout_version;
  chunk_size = d.chunk_size;
  total_size = d.size;
  stripes = stripes;
}

-- A stripe PUT of the client, with a stripe, is the server's request, with the same error.
pub put_stripes_frame :
    (d : ObjectDescriptor) (stripe : ℕ × ℕ) (stripes : List (ℕ × ℕ))
    → put_stripes_from d (stripe ∷ stripes) ≡ send_put_stripes_req (pushed d (stripe ∷ stripes))
unfolding put_stripes_from send_put_stripes_req push_string push_count write_string_u16 count_u16
put_stripes_frame d stripe stripes = elim (Bool-cases (ltb 65535 (length d.key))) [
  | inl e ↦ rw e refl
  | inr e ↦ elim (Bool-cases (ltb 65535 (length d.object_handle))) [
    | inl f ↦ rw (e, f) refl
    | inr f ↦ elim (Bool-cases (ltb 65535 (length (stripe ∷ stripes)))) [
      | inl g ↦ rw (e, f, g) refl
      | inr g ↦ rw (e, f, g) (simp (append_assoc, append-nil))
    ]
  ]
]

-- The tag says whether there is a time to live.
put_options :
    (if_not_exists with_options : Bool) (ttl_seconds : ℤ)
    → (if put_message if_not_exists with_options == msg_put_with_options_req
          || put_message if_not_exists with_options == msg_put_if_absent_with_options_req
        then u64 (i64_bits ttl_seconds)
        else [])
      ≡ put_ttl with_options ttl_seconds
unfolding put_message
put_options true true ttl_seconds = refl
put_options true false ttl_seconds = refl
put_options false true ttl_seconds = refl
put_options false false ttl_seconds = refl

options_frame :
    (if_not_exists with_options : Bool) (key : List ℕ) (size : ℕ) (ttl_seconds : ℤ)
    → build_put_request (put_message if_not_exists with_options) key size ttl_seconds ≡ (
        bind (write_string_u16 key) λ v. ok (
          frame (
            u8 (put_message if_not_exists with_options)
            ∷ v
            ∷ u64 size
            ∷ put_ttl with_options ttl_seconds
            ∷ [])))
unfolding build_put_request push_string put_message write_string_u16
options_frame if_not_exists with_options key size ttl_seconds =
    elim (Bool-cases (ltb 65535 (length key))) [
      | inl e ↦ rw e refl
      | inr e ↦
          rw (e, put_options if_not_exists with_options ttl_seconds)
            (simp (append_assoc, append-nil))
    ]

-- The frame of a PUT, conditional or not.
pub any_put_frame :
    (key : List ℕ) (size : ℕ) (if_not_exists : Bool) (ttl_seconds : ℤ)
    → put_key_from key size if_not_exists ttl_seconds ≡ (
        bind (write_string_u16 key) λ v. ok (
          frame (
            u8 (put_message if_not_exists (has_ttl ttl_seconds))
            ∷ v
            ∷ u64 size
            ∷ put_ttl (has_ttl ttl_seconds) ttl_seconds
            ∷ [])))
unfolding put_key_from
any_put_frame key size if_not_exists ttl_seconds =
    options_frame if_not_exists (has_ttl ttl_seconds) key size ttl_seconds

-- An unconditional PUT of the client is the server's PUT request, whose tag says whether there is a
-- time to live, with the same error.
put_frame :
    (key : List ℕ) (size : ℕ) (ttl_seconds : ℤ)
    → put_key_from key size false ttl_seconds
      ≡ send_put_req (record { key = key; size = size; ttl_seconds = ttl_seconds })
unfolding put_key_from send_put_req put_message
put_frame key size ttl_seconds =
    any_put_frame key size false ttl_seconds
    ∙ elim (Bool-cases (has_ttl ttl_seconds)) [ inl e ↦ rw e refl | inr e ↦ rw e refl ]
