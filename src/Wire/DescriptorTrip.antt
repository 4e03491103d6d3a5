-- ===== src/Wire/DescriptorTrip.antt =====
-- The body of a descriptor GET, in each of its three forms.
use mathlib.Core.List.{append-nil}
use context_store.Prelude.{
  ℕ, suc, ◌≤◌, Bool, true, not, List, [], ◌∷◌, ◌++◌, map, length, ◌≡◌, refl, ap, sym, ◌∙◌, arith,
  All, ◌==◌,
}
use context_store.Wire.Codec.{ok, pure, ◌>>=◌, read_word, u16, u32, u64, flag, frame}
use context_store.Wire.Descriptor.{
  Segment, DescriptorGetReqMsg, put_segment, read_segment, descriptor_tag, put_stripe_list,
  put_segment_list, put_lists, read_stripe_list, read_segments, read_segment_list,
  recv_descriptor_get_req_body_ext, recv_descriptor_get_req_body, msg_get_descriptor_req,
  msg_get_descriptor_stripes_sge_req,
}
use context_store.Wire.Fields.{IsU32, IsU64, IsText, text, u32-Reads, u64-Reads, text-Reads}
use context_store.Wire.Reads.{
  Reads, Reads-pure, Reads-assoc, Reads-bind, read_flag-Reads, read_many-Reads, read_word-Reads,
  count_u16-ok,
}

pub record IsSegment (seg : Segment) : Type 0 where
  pub addr : IsU64 seg.addr
  pub rkey : IsU32 seg.rkey
  pub len : IsU64 seg.len

segment-Reads : (seg : Segment) → IsSegment seg → Reads read_segment (put_segment seg) seg
unfolding read_segment
segment-Reads seg h = Reads-bind _ (u64-Reads seg.addr h.addr) (
    Reads-bind _ (u32-Reads seg.rkey h.rkey)
      (Reads-bind _ (u64-Reads seg.len h.len) (Reads-pure seg)))

pub All-map {ℓ κ μ} :
    {A : Type ℓ} (P : A → Type κ) (Q : A → Type μ) (xs : List A)
    → ((x : A) → P x → Q x)
    → All P xs
    → All Q xs
All-map P Q [] f h = tt
All-map P Q (x ∷ xs) f h = (f x h.0, All-map P Q xs f h.1)

abbrev listed : List ℕ → List ℕ
listed stripes = u16 (length stripes) ++ frame (map u32 stripes)

abbrev scattered : List Segment → List ℕ
scattered segs = u16 (length segs) ++ frame (map put_segment segs)

module _ (stripes : List ℕ) (short : length stripes ≤ 65535) where
  stripe_list-ok : put_stripe_list stripes ≡ ok (listed stripes)
  unfolding put_stripe_list
  stripe_list-ok = rw (count_u16-ok (length stripes) short)

  stripe_list-Reads : All IsU32 stripes → Reads (read_stripe_list true) (listed stripes) stripes
  unfolding read_stripe_list
  stripe_list-Reads h =
      Reads-bind _ (read_word-Reads 2 (length stripes) (omega arith))
        (read_many-Reads (read_word 4) u32 stripes (All-map _ _ stripes u32-Reads h))

module _ (seg : Segment) (segs : List Segment) (short : length (seg ∷ segs) ≤ 65535) where
  segment_list-ok : put_segment_list (seg ∷ segs) ≡ ok (scattered (seg ∷ segs))
  unfolding put_segment_list
  segment_list-ok = rw (count_u16-ok (suc (length segs)) short)

  segment_list-Reads :
      All IsSegment (seg ∷ segs)
      → Reads (read_segment_list true) (scattered (seg ∷ segs)) (seg ∷ segs)
  unfolding read_segment_list read_segments
  segment_list-Reads h = Reads-bind _ (read_word-Reads 2 (suc (length segs)) (omega arith)) (
      read_many-Reads read_segment put_segment (seg ∷ segs)
        (All-map _ _ (seg ∷ segs) segment-Reads h))

-- Which lists `handle_client` expects behind a tag.
abbrev pub tag_has_stripes : ℕ → Bool
tag_has_stripes tag = not (tag == msg_get_descriptor_req)

abbrev pub tag_has_segments : ℕ → Bool
tag_has_segments tag = tag == msg_get_descriptor_stripes_sge_req

pub record ListsTrip (segs : List Segment) (stripes : List ℕ) : Type 0 where
  pub first : List ℕ
  pub second : List ℕ
  pub sends : put_lists segs stripes ≡ ok (first ++ second)
  pub reads_first :
      Reads (read_stripe_list (tag_has_stripes (descriptor_tag segs stripes))) first stripes
  pub reads_second :
      Reads (read_segment_list (tag_has_segments (descriptor_tag segs stripes))) second segs

pub record HasLists (segs : List Segment) (stripes : List ℕ) : Type 0 where
  pub few_stripes : length stripes ≤ 65535
  pub few_segments : length segs ≤ 65535
  pub stripe_words : All IsU32 stripes
  pub segment_words : All IsSegment segs

pub lists_trip :
    (segs : List Segment) (stripes : List ℕ) → HasLists segs stripes → ListsTrip segs stripes
unfolding put_lists descriptor_tag read_stripe_list read_segment_list
lists_trip [] [] h = record {
  first = [];
  second = [];
  sends = refl;
  reads_first = Reads-pure [];
  reads_second = Reads-pure [];
}
lists_trip [] (i ∷ stripes) h = record {
  first = listed (i ∷ stripes);
  second = [];
  sends =
      stripe_list-ok (i ∷ stripes) h.few_stripes ∙ ap ok (sym (append-nil (listed (i ∷ stripes))));
  reads_first = stripe_list-Reads (i ∷ stripes) h.few_stripes h.stripe_words;
  reads_second = Reads-pure [];
}
lists_trip (seg ∷ segs) stripes h = record {
  first = listed stripes;
  second = scattered (seg ∷ segs);
  sends = rw (stripe_list-ok stripes h.few_stripes, segment_list-ok seg segs h.few_segments);
  reads_first = stripe_list-Reads stripes h.few_stripes h.stripe_words;
  reads_second = segment_list-Reads seg segs h.few_segments h.segment_words;
}

module _ (valid_utf8 : List ℕ → Bool) where
  pub record IsDescriptorGetReq (msg : DescriptorGetReqMsg) : Type 0 where
    pub key : IsText valid_utf8 msg.key
    pub object_handle : IsText valid_utf8 msg.object_handle
    pub object_generation : IsU64 msg.object_generation
    pub content_etag : IsText valid_utf8 msg.content_etag
    pub layout_version : IsU64 msg.layout_version
    pub size : IsU64 msg.size
    pub stripe_count : IsU32 msg.stripe_count
    pub chunk_size : IsU64 msg.chunk_size
    pub dst_addr : IsU64 msg.dst_addr
    pub dst_rkey : IsU32 msg.dst_rkey
    pub max_size : IsU64 msg.max_size
    pub lists : HasLists msg.dst_segments msg.stripes

  -- The bytes behind the tag.
  abbrev pub body : DescriptorGetReqMsg → List ℕ → List ℕ
  body msg lists = frame (
      text msg.key
      ∷ text msg.object_handle
      ∷ u64 msg.object_generation
      ∷ text msg.content_etag
      ∷ u64 msg.layout_version
      ∷ u64 msg.size
      ∷ flag msg.is_striped
      ∷ u32 msg.stripe_count
      ∷ u64 msg.chunk_size
      ∷ u64 msg.dst_addr
      ∷ u32 msg.dst_rkey
      ∷ u64 msg.max_size
      ∷ lists
      ∷ [])

  lists-Reads :
      (msg : DescriptorGetReqMsg) (l : ListsTrip msg.dst_segments msg.stripes)
      → Reads
          (do
            stripes ←
                read_stripe_list (tag_has_stripes (descriptor_tag msg.dst_segments msg.stripes))
            dst_segments ←
                read_segment_list (tag_has_segments (descriptor_tag msg.dst_segments msg.stripes))
            pure (record msg { stripes = stripes; dst_segments = dst_segments }))
          ((l.first ++ l.second) ++ [])
          msg
  lists-Reads msg l =
      Reads-assoc l.first l.second []
        (Reads-bind _ l.reads_first (Reads-bind _ l.reads_second (Reads-pure msg)))

  -- What stands behind the tag is read as the request.
  pub body-Reads :
      (msg : DescriptorGetReqMsg)
      → IsDescriptorGetReq msg
      → (l : ListsTrip msg.dst_segments msg.stripes)
      → Reads
          (recv_descriptor_get_req_body valid_utf8 (descriptor_tag msg.dst_segments msg.stripes))
          (body msg (l.first ++ l.second))
          msg
  unfolding recv_descriptor_get_req_body recv_descriptor_get_req_body_ext
  body-Reads msg h l = Reads-bind _ (text-Reads valid_utf8 h.key) (
      Reads-bind _ (text-Reads valid_utf8 h.object_handle) (
        Reads-bind _ (u64-Reads msg.object_generation h.object_generation) (
          Reads-bind _ (text-Reads valid_utf8 h.content_etag) (
            Reads-bind _ (u64-Reads msg.layout_version h.layout_version) (
              Reads-bind _ (u64-Reads msg.size h.size) (
                Reads-bind _ (read_flag-Reads msg.is_striped) (
                  Reads-bind _ (u32-Reads msg.stripe_count h.stripe_count) (
                    Reads-bind _ (u64-Reads msg.chunk_size h.chunk_size) (
                      Reads-bind _ (u64-Reads msg.dst_addr h.dst_addr) (
                        Reads-bind _ (u32-Reads msg.dst_rkey h.dst_rkey) (
                          Reads-bind _ (u64-Reads msg.max_size h.max_size)
                            (lists-Reads msg l))))))))))))
