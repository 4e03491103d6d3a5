-- ===== src/Storage/StripedTrip.antt =====
-- An object that is stored in stripes is read back.
use context_store.Prelude.{
  ℕ, length-append, ◌^◌, ◌<◌, true, false, Option, some, List, [], ◌∷◌, length, map, concat,
  eq_bytes_refl, if◌then◌else◌, ◌≡◌, refl, ap, sym, ◌∙◌, subst, arith,
}
use context_store.Prelude.Int.{ℤ}
use context_store.Prelude.Results.{ok}
use context_store.Prelude.Actions.{bind_ok, or_raise-some}
use context_store.Metadata.{BlockMeta, is_expired_at}
use context_store.Router.{ObjectKey, to_string_key}
use context_store.Router.Files.{object_digest}
use context_store.MemoryTier.Objects.{total_len}
use context_store.Storage.Paths.{has_slash}
use context_store.Storage.Tier.{
  Tier, World, gc_not_before, checksum_bytes, checksum_segments, hex16,
}
use context_store.Storage.Calls.{on_files_lem}
use context_store.Storage.Commit.{versioned}
use context_store.Storage.Published.{prepare_write_meta_lem, commit_replaced}
use context_store.Storage.Stripes.{stripes_of}
use context_store.Storage.Cuts.{stripes_of_lem}
use context_store.Storage.Writes.{
  Item, place, write_batch_vectored, first_device, in_stripes, striping_info, write_stripes,
  put_striped_chunks_impl, put_striped_chunks, put_chunks, should_stripe,
}
use context_store.Storage.Reads.{
  read_aligned_batch, read_striped_chunks, read_object_chunks, get_chunks,
}
use context_store.Storage.ReadBack.{get_chunks_with_meta_alive, get_chunks_found}
use context_store.Storage.Batches.{
  oks, Holds, write_batch-Holds, read_batch_lem, check_writes_ok, place-ArePlaced,
  ArePlaced-AreDistinct, ArePlaced-segments,
}
use context_store.Storage.Verified.{checksums-AreVerified, check_chunks_ok}

module _ (T : Tier) (key : ObjectKey) where
  -- The stripes of a new version are written: the calls are answered, and the router has devices.
  pub record Striped (stripes : List (List (List ℕ))) (w : World T) : Type 0 where
    pub generation : ℕ
    pub device : ℕ
    pub items : List Item
    pub s₁ : T.service.State
    pub f₁ : T.executor.Files
    pub numbered : T.service.next_generation (to_string_key key) w.metadata ≡ (ok generation, s₁)
    pub placed :
        place T key generation 1 0 stripes (record w { metadata = s₁ })
        ≡ (ok items, record w { metadata = s₁ })
    pub first : first_device T items ≡ some device
    pub written : write_batch_vectored T items w.files ≡ (oks T (λ i. tt) items, f₁)

  module _ (checksum : List (List ℕ) → List ℕ) (stripes : List (List (List ℕ))) (total : ℕ)
      (meta : BlockMeta) (w : World T) (a : Striped stripes w) where
    -- The metadata that are published.
    abbrev pub stored : BlockMeta
    stored = in_stripes T checksum total a.device a.items (versioned T key meta total a.generation)

    module _ (now : ℤ) (old : Option BlockMeta) (s₂ : T.service.State)
        (published : T.service.replace_block (to_string_key key) stored (gc_not_before T now) a.s₁
          ≡ (ok old, s₂)) where
      write_stripes_lem :
          (w' : World T) × (write_stripes T checksum key stripes total
              (versioned T key meta total a.generation)
              false
              now
              (record w { metadata = a.s₁ })
            ≡ (ok true, w'))
          × (w'.files ≡ a.f₁)
          × (w'.metadata ≡ s₂)
      unfolding write_stripes
      write_stripes_lem =
          let w₁ = record w { metadata = a.s₁; files = a.f₁ } in
          let (w₂, checked, files, metadata') = check_writes_ok T [] a.items w₁ in
          (
            _,
            bind_ok _ _ a.placed
                ∙ bind_ok _ _ (
                    on_files_lem T (record w { metadata = a.s₁ }) _
                      (ap (λ p. (ok p.0, p.1)) a.written))
                ∙ bind_ok _ _ checked
                ∙ bind_ok _ _ (or_raise-some _ _ _ a.first)
                ∙ bind_ok _ _ (
                    commit_replaced T key stored w₂ (map (λ (i : Item). i.path) a.items) now s₂ old
                      (ap (T.service.replace_block (to_string_key key) stored (gc_not_before T now))
                          metadata'
                        ∙ published))
                ∙ bind_ok _ _ refl,
            files,
            refl,
          )

    module _ (plain : has_slash (object_digest T.digest key) ≡ false)
        (few : length stripes < 2 ^ 64) where
      -- Each file has the bytes of its stripe.
      striped_Holds : Holds T a.f₁ a.items
      striped_Holds =
          subst (λ f. Holds T f a.items) (ap (λ p. p.1) a.written)
            (write_batch-Holds T a.items w.files
              (ArePlaced-AreDistinct T key plain a.generation 1 0 stripes a.items
                (omega (arith, few))
                (T.service.next_generation_u64 (to_string_key key) a.generation w.metadata
                  (ap (λ p. p.0) a.numbered))
                (omega arith)
                (place-ArePlaced T key plain a.generation 1 0 stripes (record w { metadata = a.s₁ })
                  a.items (ap (λ p. p.0) a.placed)))
              (ap (λ p. p.0) a.written))

      read_back :
          (w' : World T) (got : List (List ℕ)) (f : T.executor.Files)
          → ((ss : List (List ℕ)) → checksum ss ≡ checksum_bytes T (concat ss))
          → w'.files ≡ a.f₁
          → read_aligned_batch T (map (λ (i : Item). i.path) a.items) w'.files
            ≡ (oks T (λ g. g) got, f)
          → (w'' : World T) × (read_object_chunks T key stored w'
              ≡ (ok (some (map concat stripes, stored)), w''))
      unfolding read_object_chunks read_striped_chunks
      read_back w' got f streams same read =
          let right =
            read_batch_lem T a.items w'.files got
              (subst (λ f'. Holds T f' a.items) (sym same) striped_Holds) (ap (λ p. p.0) read) in
          let segs = ArePlaced-segments T key plain a.generation 1 0 stripes a.items (
            place-ArePlaced T key plain a.generation 1 0 stripes (record w { metadata = a.s₁ })
              a.items (ap (λ p. p.0) a.placed)) in
          let stripe = striping_info T checksum total a.items in
          let (w₂, checked) =
            check_chunks_ok T stripe 0 a.items (record w' { files = f })
              (checksums-AreVerified T checksum streams stripe a.items refl) in
          let chunks : read_striped_chunks T stripe w' ≡ (ok (map concat stripes), w₂) =
            bind_ok _ _ (
              on_files_lem T w' _
                (ap (λ p. (ok p.0, p.1)) read ∙ ap (λ g. (ok (oks T (λ x. x) g), f)) right))
            ∙ checked
            ∙ ap (λ x. (ok x, w₂)) segs in
          (_, bind_ok _ _ (ap (λ p. (ok p.0, p.1)) chunks) ∙ bind_ok _ _ refl)

total_len_lem :
    (segments : List (List ℕ))
    → length (concat segments) < 2 ^ 64
    → total_len segments ≡ length (concat segments)
unfolding total_len
total_len_lem [] h = refl
total_len_lem (s ∷ segments) h =
    let sum = length-append s (concat segments) in
    let rest = total_len_lem segments (omega (arith, sum, h)) in rw (rest) (omega (arith, sum, h))

module _ (T : Tier) (key : ObjectKey) (segments : List (List ℕ)) (meta : BlockMeta) (now : ℤ)
    (w : World T) where
  abbrev cut : List (List (List ℕ))
  cut = stripes_of T.striping_chunk_size (length (concat segments)) segments

  module _ (a : Striped T key cut w) (old : Option BlockMeta) (s₂ : T.service.State)
      (published : T.service.replace_block
          (to_string_key key)
          (stored T key (checksum_segments T) cut (length (concat segments)) meta w a)
          (gc_not_before T now)
          a.s₁
        ≡ (ok old, s₂)) where
    put_chunks_lem :
        length (concat segments) < 2 ^ 64
        → should_stripe T (length (concat segments)) ≡ true
        → (w' : World T) × (put_chunks T key segments meta now w ≡ (ok tt, w'))
          × (w'.files ≡ a.f₁)
          × (w'.metadata ≡ s₂)
    unfolding put_chunks put_striped_chunks put_striped_chunks_impl
    put_chunks_lem bound striped =
        let (w', e, files, metadata') =
          write_stripes_lem T key (checksum_segments T) cut (length (concat segments)) meta w a now
            old s₂ published in
        (
          w',
          rw (total_len_lem segments bound, striped, put_chunks)
              (bind_ok _ _ (
                bind_ok _ _ (
                  prepare_write_meta_lem T key meta w (length (concat segments)) a.generation a.s₁
                    a.numbered)
                ∙ e)),
          files,
          metadata',
        )

    found_stored :
        (w' : World T) (found : Option BlockMeta) (s : T.service.State)
        → w'.metadata ≡ s₂
        → T.service.get_block (to_string_key key) w'.metadata ≡ (ok found, s)
        → T.service.get_block (to_string_key key) w'.metadata ≡ (
          ok (some (stored T key (checksum_segments T) cut (length (concat segments)) meta w a)),
          s,
        )
    found_stored w' found s same asked =
        let meta' = stored T key (checksum_segments T) cut (length (concat segments)) meta w a in
        asked
        ∙ ap (λ m. (ok m, s))
            (sym
                (T.service.get_block_ok (to_string_key key) found w'.metadata (ap (λ p. p.0) asked))
              ∙ ap (T.service.visible (to_string_key key)) (same ∙ ap (λ p. p.1) (sym published))
              ∙ T.service.visible-replace_block (to_string_key key) (to_string_key key) meta' _ a.s₁
                  old (ap (λ p. p.0) published)
              ∙ ap (λ b. if b then some meta' else T.service.visible (to_string_key key) a.s₁)
                  (eq_bytes_refl (to_string_key key)))

  -- If the calls of a `put_chunks` of an object that is striped, of less than 2^64 bytes in less than
  -- 2^64 stripes, are answered, it succeeds and publishes the metadata of the new version; a
  -- `get_chunks` after it whose calls are answered, before that version expires, returns the stripes,
  -- whose bytes are those that were put, and finds no checksum wrong. The digest of the key has no
  -- separator of paths, and a hash of a stream is that of its bytes.
  pub put_chunks-get_chunks :
      (a : Striped T key cut w) (old : Option BlockMeta) (s₂ : T.service.State)
      → T.service.replace_block
          (to_string_key key)
          (stored T key (checksum_segments T) cut (length (concat segments)) meta w a)
          (gc_not_before T now)
          a.s₁
        ≡ (ok old, s₂)
      → has_slash (object_digest T.digest key) ≡ false
      → ((ss : List (List ℕ)) → T.hash_stream ss ≡ T.hash64 (concat ss))
      → 0 < T.striping_chunk_size
      → length (concat segments) < 2 ^ 64
      → length cut < 2 ^ 64
      → should_stripe T (length (concat segments)) ≡ true
      → (now' : ℤ) (found : Option BlockMeta) (got : List (List ℕ)) (s : T.service.State)
        (f : T.executor.Files)
      → is_expired_at meta now' ≡ false
      → T.service.get_block (to_string_key key) (put_chunks T key segments meta now w).1.metadata
        ≡ (ok found, s)
      → read_aligned_batch T
          (map (λ (i : Item). i.path) a.items)
          (put_chunks T key segments meta now w).1.files
        ≡ (oks T (λ g. g) got, f)
      → ((put_chunks T key segments meta now w).0 ≡ ok tt)
        × ((get_chunks T key now' (put_chunks T key segments meta now w).1).0
            ≡ ok (
                some (
                  map concat cut,
                  stored T key (checksum_segments T) cut (length (concat segments)) meta w a,
                )))
        × (concat (map concat cut) ≡ concat segments)
  unfolding is_expired_at
  put_chunks-get_chunks a old s₂ published plain streams positive bound few striped now' found got s
        f alive asked read =
      let (w', done, files, metadata') = put_chunks_lem a old s₂ published bound striped in
      let asked' =
        ap (λ p. T.service.get_block (to_string_key key) p.1.metadata) (sym done) ∙ asked in
      let read' =
        ap (λ p. read_aligned_batch T (map (λ (i : Item). i.path) a.items) p.1.files) (sym done)
        ∙ read in
      let (w'', got_back) =
        read_back T key (checksum_segments T) cut (length (concat segments)) meta w a plain few
          (record w' { metadata = s }) got f (λ ss. ap hex16 (streams ss)) files read' in
      let meta' = stored T key (checksum_segments T) cut (length (concat segments)) meta w a in
      (
        ap (λ p. p.0) done,
        ap (λ p. (get_chunks T key now' p.1).0) done
            ∙ ap (λ p. p.0)
                (get_chunks_found T key meta' now' w' s
                  (found_stored a old s₂ published w' found s metadata' asked')
                  (get_chunks_with_meta_alive T key meta' now' (record w' { metadata = s }) alive
                    got_back)),
        (stripes_of_lem T.striping_chunk_size segments positive).1,
      )
