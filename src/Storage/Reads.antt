-- ===== src/Storage/Reads.antt =====
-- Reading an object: `get`, `get_chunks`, their variants with known metadata, `exists` and `delete` of
-- kv-service/server/src/storage_tier.rs. The requests of a batch follow one another.
use context_store.Prelude.{
  ℕ, suc, Bool, true, false, ◌==◌, if◌then◌else◌, Option, none, some, List, [], ◌∷◌, length, concat,
  map,
}
use context_store.Prelude.Int.{ℤ}
use context_store.Prelude.Results.{Result, ok, err}
use context_store.Prelude.Actions.{pure, raise, modify, gets, or_raise, try_call, ◌>>=◌, ◌>>◌}
use context_store.Metadata.{StripingInfo, BlockMeta, is_expired_at}
use context_store.Metadata.Redis.{is_some}
use context_store.Router.{ObjectKey, to_string_key}
use context_store.MemoryTier.Objects.{total_len}
use context_store.Storage.Executor.{KvError, not_found, internal}
use context_store.Storage.Tier.{
  Tier, World, Run, on_metadata, on_files, from_result, gc_not_before, get_nth, read_file_on_device,
  counted_read, record_device_read, verify_stripe_bytes, meta_path_or_route, meta_device_or_route,
  fetch_add, update_at,
}
use context_store.Storage.Commit.{
  delete_metadata_if_current, purge_if_expired, stripe_files_exist, is_not_found_error,
}

module _ (T : Tier) where
  -- `read_aligned_batch`
  unfoldable pub read_aligned_batch :
      List (List ℕ) → T.executor.Files → List (Result KvError (List ℕ)) × T.executor.Files
  read_aligned_batch [] files = ([], files)
  read_aligned_batch (path ∷ paths) files =
      let (r, files₁) = T.executor.read_file path files in
      let (rs, files₂) = read_aligned_batch paths files₁ in (r ∷ rs, files₂)

  abbrev pub read_batch : List (List ℕ) → Run T (List (Result KvError (List ℕ)))
  read_batch paths =
      on_files T (λ files. let (rs, files') = read_aligned_batch paths files in (ok rs, files'))

  -- The error of a chunk as it is passed on.
  abbrev pub chunk_error : KvError → KvError
  chunk_error e = if is_not_found_error e then not_found else internal

  abbrev pub record_read_at : Option ℕ → ℕ → World T → World T
  record_read_at none bytes w = w
  record_read_at (some device_id) bytes w = record_device_read T device_id bytes w

  -- The loop over the results, from number `i` on.
  unfoldable pub check_chunks :
      StripingInfo → ℕ → List (Result KvError (List ℕ)) → Run T (List (List ℕ))
  unfolding is_not_found_error get_nth verify_stripe_bytes update_at
  check_chunks stripe i [] = pure []
  check_chunks stripe i (err e ∷ rs) = raise (chunk_error e)
  check_chunks stripe i (ok chunk ∷ rs) = do
    modify (record_read_at (get_nth i stripe.chunk_devices) (length chunk))
    from_result T (verify_stripe_bytes T stripe i chunk)
    chunks ← check_chunks stripe (suc i) rs
    pure (chunk ∷ chunks)

  unfoldable pub read_striped_chunks : StripingInfo → Run T (List (List ℕ))
  unfolding read_aligned_batch check_chunks
  read_striped_chunks stripe = do
    results ← read_batch stripe.chunk_paths
    check_chunks stripe 0 results

  unfoldable pub read_striped : StripingInfo → Run T (List ℕ)
  unfolding read_striped_chunks
  read_striped stripe = do segments ← read_striped_chunks stripe; pure (concat segments)

  -- Chosen stripes, with their numbers.
  unfoldable pub requests : StripingInfo → List ℕ → Result KvError (List (List ℕ × ℕ))
  unfolding get_nth
  requests stripe [] = ok []
  requests stripe (index ∷ indices) = elim (get_nth index stripe.chunk_paths) [
    | none ↦ err internal
    | some path ↦ elim (get_nth index stripe.chunk_devices) [
      | none ↦ err internal
      | some device_id ↦ elim (requests stripe indices) [
        | err e ↦ err e
        | ok rest ↦ ok ((path, device_id) ∷ rest)
      ]
    ]
  ]

  unfoldable pub check_chunks_at :
      StripingInfo
      → List ℕ
      → List (List ℕ × ℕ)
      → List (Result KvError (List ℕ))
      → Run T (List (ℕ × List ℕ))
  unfolding is_not_found_error verify_stripe_bytes update_at
  check_chunks_at stripe (index ∷ indices) ((path, device_id) ∷ reqs) (err e ∷ rs) =
      raise (chunk_error e)
  check_chunks_at stripe (index ∷ indices) ((path, device_id) ∷ reqs) (ok chunk ∷ rs) = do
    modify (record_device_read T device_id (length chunk))
    from_result T (verify_stripe_bytes T stripe index chunk)
    modify (λ w. record w { bytes_read = fetch_add w.bytes_read (length chunk) })
    chunks ← check_chunks_at stripe indices reqs rs
    pure ((index, chunk) ∷ chunks)
  check_chunks_at stripe [] reqs rs = pure []
  check_chunks_at stripe (index ∷ indices) [] rs = pure []
  check_chunks_at stripe (index ∷ indices) ((path, device_id) ∷ reqs) [] = pure []

  unfoldable pub read_striped_chunks_at : StripingInfo → List ℕ → Run T (List (ℕ × List ℕ))
  unfolding requests read_aligned_batch check_chunks_at
  read_striped_chunks_at stripe indices = do
    reqs ← from_result T (requests stripe indices)
    results ← read_batch (map (λ (r : List ℕ × ℕ). r.0) reqs)
    if length results == length indices
        then check_chunks_at stripe indices reqs results
        else raise internal

  abbrev pub first_chunk : List (ℕ × List ℕ) → Option (List ℕ)
  first_chunk [] = none
  first_chunk ((i, chunk) ∷ chunks) = some chunk

  unfoldable pub read_striped_chunk_at : StripingInfo → ℕ → Run T (List ℕ)
  unfolding read_striped_chunks_at
  read_striped_chunk_at stripe index = do
    chunks ← read_striped_chunks_at stripe (index ∷ [])
    or_raise internal (first_chunk chunks)

  -- The metadata lead nowhere.
  abbrev pub drop_metadata : {A : Type 0} → ObjectKey → BlockMeta → Run T (Option A)
  drop_metadata key meta = do dropped ← delete_metadata_if_current T key meta; pure none

  -- Stripes that are not found are no error of the read.
  abbrev pub found_or_dropped :
      {A : Type 0}
      → ObjectKey
      → BlockMeta
      → Result KvError A
      → (A → Run T (Option (A × BlockMeta)))
      → Run T (Option (A × BlockMeta))
  found_or_dropped key meta (ok a) next = next a
  found_or_dropped key meta (err not_found) next = drop_metadata key meta
  found_or_dropped key meta (err e) next = raise e

  -- An object that is whole in one file, which is there or not.
  unfoldable pub read_present : ObjectKey → BlockMeta → List ℕ → Bool → Run T (Option (List ℕ))
  unfolding meta_device_or_route read_file_on_device update_at delete_metadata_if_current
  read_present key meta path false = drop_metadata key meta
  read_present key meta path true = do
    device_id ← meta_device_or_route T key meta
    bytes ← read_file_on_device T device_id path
    modify (λ w. record_device_read T device_id (length bytes) (counted_read T (length bytes) w))
    pure (some bytes)

  unfoldable pub read_whole : ObjectKey → BlockMeta → Run T (Option (List ℕ))
  unfolding meta_path_or_route read_present
  read_whole key meta = do
    path ← meta_path_or_route T key meta
    present ← gets (λ (w : World T). T.executor.file_exists path w.files)
    read_present key meta path present

  abbrev pub with_meta : {A B : Type 0} → (A → B) → BlockMeta → Option A → Option (B × BlockMeta)
  with_meta f meta none = none
  with_meta f meta (some a) = some (f a, meta)

  -- The read of `get`, and that of `get_chunks`, once the metadata are known.
  unfoldable pub read_layout :
      ObjectKey → BlockMeta → Option StripingInfo → Run T (Option (List ℕ × BlockMeta))
  unfolding read_striped delete_metadata_if_current read_whole
  read_layout key meta none = do bytes ← read_whole key meta; pure (with_meta (λ b. b) meta bytes)
  read_layout key meta (some stripe) = do
    result ← try_call (read_striped stripe)
    found_or_dropped key meta result
        (λ bytes. do modify (counted_read T (length bytes)); pure (some (bytes, meta)))

  unfoldable pub read_object : ObjectKey → BlockMeta → Run T (Option (List ℕ × BlockMeta))
  unfolding read_layout
  read_object key meta = read_layout key meta meta.striping

  unfoldable pub read_object_chunks :
      ObjectKey → BlockMeta → Run T (Option (List (List ℕ) × BlockMeta))
  unfolding read_striped_chunks delete_metadata_if_current read_whole total_len
  read_object_chunks key meta = elim meta.striping [
    | some stripe ↦ do
      result ← try_call (read_striped_chunks stripe)
      found_or_dropped key meta result (λ segments. do
        modify (counted_read T (total_len segments))
        pure (some (segments, meta)))
    | none ↦ do bytes ← read_whole key meta; pure (with_meta (λ b. b ∷ []) meta bytes)
  ]

  unfoldable pub get_with_meta : ObjectKey → BlockMeta → ℤ → Run T (Option (List ℕ × BlockMeta))
  unfolding purge_if_expired read_object
  get_with_meta key meta now = do
    purged ← purge_if_expired T now key meta
    if purged then pure none else read_object key meta

  abbrev pub get_known : ObjectKey → ℤ → Option BlockMeta → Run T (Option (List ℕ × BlockMeta))
  get_known key now none = pure none
  get_known key now (some meta) = get_with_meta key meta now

  unfoldable pub get : ObjectKey → ℤ → Run T (Option (List ℕ × BlockMeta))
  unfolding get_with_meta
  get key now = do
    found ← on_metadata T (T.service.get_block (to_string_key key))
    get_known key now found

  unfoldable pub get_chunks_with_meta :
      ObjectKey → BlockMeta → ℤ → Run T (Option (List (List ℕ) × BlockMeta))
  unfolding purge_if_expired read_object_chunks
  get_chunks_with_meta key meta now = do
    purged ← purge_if_expired T now key meta
    if purged then pure none else read_object_chunks key meta

  unfoldable pub get_chunks : ObjectKey → ℤ → Run T (Option (List (List ℕ) × BlockMeta))
  unfolding get_chunks_with_meta
  get_chunks key now = do
    found ← on_metadata T (T.service.get_block (to_string_key key))
    elim found [ none ↦ pure none | some meta ↦ get_chunks_with_meta key meta now ]

  -- `retire`
  unfoldable pub delete : ObjectKey → ℤ → Run T Bool
  delete key now = do
    old ← on_metadata T (T.service.retire_block (to_string_key key) (gc_not_before T now))
    pure (is_some old)

  abbrev pub drop_missing : ObjectKey → BlockMeta → Bool → Run T Bool
  drop_missing key meta true = pure true
  drop_missing key meta false = do dropped ← delete_metadata_if_current T key meta; pure false

  unfoldable pub exists_with_meta : ObjectKey → BlockMeta → ℤ → Run T Bool
  unfolding purge_if_expired stripe_files_exist delete_metadata_if_current meta_path_or_route
  exists_with_meta key meta now =
      if is_expired_at meta now
      then (do purged ← try_call (purge_if_expired T now key meta); pure false)
      else (elim meta.striping [
        | some stripe ↦ do
          present ← gets (λ (w : World T). stripe_files_exist T stripe.chunk_paths w.files)
          drop_missing key meta present
        | none ↦ do
          path ← meta_path_or_route T key meta
          present ← gets (λ (w : World T). T.executor.file_exists path w.files)
          drop_missing key meta present
      ])

  unfoldable pub exists : ObjectKey → ℤ → Run T Bool
  unfolding exists_with_meta
  exists key now = do
    found ← on_metadata T (T.service.get_block (to_string_key key))
    elim found [ none ↦ pure false | some meta ↦ exists_with_meta key meta now ]
