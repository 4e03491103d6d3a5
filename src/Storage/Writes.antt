-- ===== src/Storage/Writes.antt =====
-- Writing an object: `put`, `put_if_absent`, `put_chunks`, `put_chunks_if_absent` and `put_batch` of
-- kv-service/server/src/storage_tier.rs. The requests of a batch, which run at the same time in the
-- executor, follow one another here, and each writes the bytes of its segments.
use context_store.Prelude.{
  ℕ, suc, ◌^◌, ◌%◌, Bool, true, false, ◌&&◌, ltb, if◌then◌else◌, Option, none, some, List, [], ◌∷◌,
  ◌++◌, length, concat, map,
}
use context_store.Prelude.Int.{ℤ}
use context_store.Prelude.Results.{Result, ok, err}
use context_store.Prelude.Actions.{pure, raise, modify, or_raise, ◌>>=◌, ◌>>◌}
use context_store.Metadata.{StripingInfo, BlockMeta, is_expired_at}
use context_store.Router.{ObjectKey, to_string_key}
use context_store.Router.Files.{chunk_device}
use context_store.MemoryTier.Objects.{total_len}
use context_store.Storage.Executor.{KvError, panicked}
use context_store.Storage.Tier.{
  Tier, World, Run, on_metadata, on_files, routed, versioned_path, chunk_path, write_file_on_device,
  counted_write, fetch_add, record_device_write, file_size, checksum_segments, update_at,
}
use context_store.Storage.Commit.{
  prepare_write_meta, commit_metadata_with_rollback, delete_expired_current_locked,
}
use context_store.Storage.Stripes.{stripes_of, slices, n_stripes}

-- What is known of a stripe that is to be written.
pub record Item : Type 0 where
  pub device : ℕ
  pub path : List ℕ
  pub segments : List (List ℕ)

module _ (T : Tier) where
  unfoldable pub should_stripe : ℕ → Bool
  should_stripe len =
      ltb 0 T.striping_threshold && ltb T.striping_threshold len && ltb 1 (length T.router.devices)

  -- The metadata of an object in one file.
  abbrev pub in_file : List ℕ → ℕ → ℕ → BlockMeta → BlockMeta
  in_file path size device_id meta = record meta {
    file_path = path;
    size = size;
    device_id = device_id % 2 ^ 32;
    striping = none;
  }

  -- The end of a write, which is counted if its version was published.
  abbrev pub count_if : (World T → World T) → Bool → Run T Bool
  count_if counted true = do modify counted; pure true
  count_if counted false = pure false

  -- The part of `put` and `put_if_absent` that writes one file.
  unfoldable pub put_file : ObjectKey → List ℕ → BlockMeta → Bool → ℤ → Run T Bool
  unfolding prepare_write_meta write_file_on_device commit_metadata_with_rollback
  put_file key bytes meta if_absent now = do
    prepared ← prepare_write_meta T key meta (length bytes)
    device_id ← routed T key
    path ← versioned_path T key device_id prepared.object_generation prepared.layout_version
    write_file_on_device T device_id path bytes
    committed ←
        commit_metadata_with_rollback T key (in_file path (length bytes) device_id prepared)
          (path ∷ []) if_absent now
    count_if (counted_write T (length bytes)) committed

  -- The devices and the paths of the stripes from number `i` on.
  unfoldable pub place : ObjectKey → ℕ → ℕ → ℕ → List (List (List ℕ)) → Run T (List Item)
  unfolding chunk_device
  place key generation layout_version i [] = pure []
  place key generation layout_version i (segments ∷ stripes) = do
    device ← or_raise panicked (chunk_device T.hash64 T.router key i)
    path ← chunk_path T key i device generation layout_version
    items ← place key generation layout_version (suc i) stripes
    pure (record { device = device; path = path; segments = segments } ∷ items)

  -- `write_batch_vectored`
  unfoldable pub write_batch_vectored :
      List Item → T.executor.Files → List (Result KvError (Unit {0})) × T.executor.Files
  write_batch_vectored [] files = ([], files)
  write_batch_vectored (item ∷ items) files =
      let (r, files₁) = T.executor.write_file item.path (concat item.segments) files in
      let (rs, files₂) = write_batch_vectored items files₁ in (r ∷ rs, files₂)

  unfoldable pub delete_all : List (List ℕ) → T.executor.Files → T.executor.Files
  delete_all [] files = files
  delete_all (path ∷ paths) files = delete_all paths (T.executor.delete_file path files).1

  -- The loop over the results: the first error deletes the files of the stripes before it, `done`.
  unfoldable pub check_writes :
      List (List ℕ) → List Item → List (Result KvError (Unit {0})) → Run T (Unit {0})
  unfolding delete_all update_at
  check_writes done [] rs = pure tt
  check_writes done (item ∷ items) [] = pure tt
  check_writes done (item ∷ items) (err e ∷ rs) = do
    modify (λ w. record w { files = delete_all done w.files })
    raise e
  check_writes done (item ∷ items) (ok u ∷ rs) = do
    modify (λ w. record_device_write T item.device (file_size T item.path w) w)
    check_writes (done ++ (item.path ∷ [])) items rs

  abbrev pub checksums : (List (List ℕ) → List ℕ) → List Item → List (List ℕ)
  checksums checksum items =
      if T.verify_stripe_checksums then map (λ (i : Item). checksum i.segments) items else []

  abbrev pub first_device : List Item → Option ℕ
  first_device [] = none
  first_device (item ∷ items) = some (item.device % 2 ^ 32)

  abbrev pub striping_info : (List (List ℕ) → List ℕ) → ℕ → List Item → StripingInfo
  striping_info checksum total items = record {
    chunk_size = T.striping_chunk_size;
    chunk_devices = map (λ (i : Item). i.device % 2 ^ 32) items;
    chunk_paths = map (λ (i : Item). i.path) items;
    total_size = total;
    chunk_locations = [];
    chunk_checksums = checksums checksum items;
  }

  -- The metadata of an object in stripes.
  abbrev pub in_stripes : (List (List ℕ) → List ℕ) → ℕ → ℕ → List Item → BlockMeta → BlockMeta
  in_stripes checksum total device items meta = record meta {
    size = total;
    device_id = device;
    file_path = [];
    striping = some (striping_info checksum total items);
  }

  -- What follows the cutting in `put_striped_chunks_impl` and in `put_from_ptr_striped`.
  unfoldable pub write_stripes :
      (List (List ℕ) → List ℕ)
      → ObjectKey
      → List (List (List ℕ))
      → ℕ
      → BlockMeta
      → Bool
      → ℤ
      → Run T Bool
  unfolding place write_batch_vectored check_writes commit_metadata_with_rollback
  write_stripes checksum key stripes total prepared if_absent now = do
    items ← place key prepared.object_generation prepared.layout_version 0 stripes
    results ←
        on_files T (λ files. let (rs, files') = write_batch_vectored items files in (ok rs, files'))
    check_writes [] items results
    device ← or_raise panicked (first_device items)
    committed ←
        commit_metadata_with_rollback T key (in_stripes checksum total device items prepared)
          (map (λ (i : Item). i.path) items) if_absent now
    count_if
        (λ w. record (counted_write T total w) { striped_writes = fetch_add w.striped_writes 1 })
        committed

  unfoldable pub put_striped_chunks_impl :
      ObjectKey → List (List ℕ) → ℕ → BlockMeta → Bool → ℤ → Run T Bool
  unfolding prepare_write_meta stripes_of write_stripes
  put_striped_chunks_impl key segments total meta if_absent now = do
    prepared ← prepare_write_meta T key meta total
    write_stripes (checksum_segments T) key (stripes_of T.striping_chunk_size total segments) total
        prepared if_absent now

  unfoldable pub put_striped_chunks :
      ObjectKey → List (List ℕ) → ℕ → BlockMeta → ℤ → Run T (Unit {0})
  unfolding put_striped_chunks_impl
  put_striped_chunks key segments total meta now = do
    committed ← put_striped_chunks_impl key segments total meta false now
    pure tt

  unfoldable pub put_striped : ObjectKey → List ℕ → BlockMeta → ℤ → Run T (Unit {0})
  unfolding put_striped_chunks slices
  put_striped key bytes meta now =
      put_striped_chunks key
        (slices T.striping_chunk_size bytes (n_stripes T.striping_chunk_size (length bytes)) 0)
        (length bytes) meta now

  unfoldable pub put : ObjectKey → List ℕ → BlockMeta → ℤ → Run T (Unit {0})
  unfolding should_stripe put_striped put_file
  put key bytes meta now =
      if should_stripe (length bytes)
      then put_striped key bytes meta now
      else (do committed ← put_file key bytes meta false now; pure tt)

  -- The check of the operations that create: `true` is that the key is free.
  unfoldable pub claim_absent : ObjectKey → ℤ → Run T Bool
  unfolding delete_expired_current_locked
  claim_absent key now = do
    found ← on_metadata T (T.service.get_block (to_string_key key))
    elim found [
      | none ↦ pure true
      | some existing ↦
          if is_expired_at existing now
          then (do purged ← delete_expired_current_locked T now key existing; pure true)
          else pure false
    ]

  unfoldable pub put_if_absent : ObjectKey → List ℕ → BlockMeta → ℤ → Run T Bool
  unfolding claim_absent should_stripe put_striped_chunks_impl put_file
  put_if_absent key bytes meta now = do
    free ← claim_absent key now
    if free
        then (if should_stripe (length bytes)
            then put_striped_chunks_impl key (bytes ∷ []) (length bytes) meta true now
            else put_file key bytes meta true now)
        else pure false

  unfoldable pub put_chunks : ObjectKey → List (List ℕ) → BlockMeta → ℤ → Run T (Unit {0})
  unfolding should_stripe put put_striped_chunks total_len
  put_chunks key segments meta now =
      if should_stripe (total_len segments)
      then put_striped_chunks key segments (total_len segments) meta now
      else put key (concat segments) meta now

  unfoldable pub put_chunks_if_absent : ObjectKey → List (List ℕ) → BlockMeta → ℤ → Run T Bool
  unfolding should_stripe put_if_absent claim_absent put_striped_chunks_impl total_len
  put_chunks_if_absent key segments meta now =
      if should_stripe (total_len segments)
      then (do
        free ← claim_absent key now
        if free
            then put_striped_chunks_impl key segments (total_len segments) meta true now
            else pure false)
      else put_if_absent key (concat segments) meta now

  -- The items of the batch one after another, as in the source.
  unfoldable pub put_batch :
      List (ObjectKey × List ℕ × BlockMeta)
      → ℤ
      → World T
      → List (Result KvError (Unit {0})) × World T
  unfolding put
  put_batch [] now w = ([], w)
  put_batch ((key, bytes, meta) ∷ items) now w =
      let (r, w₁) = put key bytes meta now w in
      let (rs, w₂) = put_batch items now w₁ in (r ∷ rs, w₂)
