-- ===== src/Storage/Placement.antt =====
-- The stripes that a data node keeps for other nodes: `put_placement_chunk`,
-- `put_placement_chunk_segments`, `validate_placement_chunk_handle`, `read_placement_chunk` and
-- `delete_placement_chunk` of kv-service/server/src/storage_tier.rs.
use context_store.Prelude.{
  ℕ, ◌%◌, ◌^◌, Bool, not, ltb, leb, ◌==◌, ◌&&◌, if◌then◌else◌, Option, none, some, List, [], ◌∷◌,
  length, concat, eq_bytes,
}
use context_store.Prelude.Actions.{pure, raise, modify, gets, or_raise, ◌>>=◌, ◌>>◌}
use context_store.Router.{ObjectKey}
use context_store.Router.Files.{chunk_device, chunk_versioned_path}
use context_store.MemoryTier.Objects.{total_len}
use context_store.Storage.Paths.{eq_path, path_string}
use context_store.Storage.Executor.{not_found, invalid_argument, internal, panicked}
use context_store.Storage.Tier.{
  Tier, World, Run, on_files, is_managed, chunk_path, device_id_for_path, write_file_on_device,
  read_file_on_device, delete_file_on_device, counted_write, counted_read, checksum_bytes,
  checksum_segments, hex_digits,
}

module _ (T : Tier) where
  unfoldable pub ensure_managed_path : List ℕ → Run T (Unit {0})
  unfolding is_managed
  ensure_managed_path path =
      if is_managed path T.router.devices then pure tt else raise invalid_argument

  -- The device, the storage handle and the checksum.
  unfoldable pub put_placement_chunk :
      ObjectKey → ℕ → ℕ → ℕ → ℕ → List ℕ → Run T (ℕ × List ℕ × List ℕ)
  unfolding chunk_device chunk_versioned_path path_string write_file_on_device hex_digits
  put_placement_chunk key stripe_index device_stripe_index generation layout_version bytes = do
    device_id ← or_raise panicked (chunk_device T.hash64 T.router key device_stripe_index)
    path ← chunk_path T key stripe_index device_id generation layout_version
    write_file_on_device T device_id path bytes
    modify (counted_write T (length bytes))
    pure (
      device_id % 2 ^ 32,
      path,
      (if T.verify_stripe_checksums then checksum_bytes T bytes else []),
    )

  -- This one does not count the bytes of the device.
  unfoldable pub put_placement_chunk_segments :
      ObjectKey → ℕ → ℕ → ℕ → ℕ → List (List ℕ) → Run T (ℕ × List ℕ × List ℕ)
  unfolding chunk_device chunk_versioned_path path_string total_len hex_digits
  put_placement_chunk_segments key stripe_index device_stripe_index generation layout_version
        segments =
      do
        device_id ← or_raise panicked (chunk_device T.hash64 T.router key device_stripe_index)
        path ← chunk_path T key stripe_index device_id generation layout_version
        on_files T (T.executor.write_file path (concat segments))
        modify (counted_write T (total_len segments))
        pure (
          device_id % 2 ^ 32,
          path,
          (if T.verify_stripe_checksums then checksum_segments T segments else []),
        )

  unfoldable pub validate_placement_chunk_handle :
      ObjectKey → ℕ → ℕ → ℕ → ℕ → List ℕ → Run T (Unit {0})
  unfolding ensure_managed_path chunk_versioned_path path_string eq_path
  validate_placement_chunk_handle key stripe_index generation layout_version device_id
        storage_handle =
      do
        ensure_managed_path storage_handle
        if leb (length T.router.devices) device_id then raise invalid_argument else (do
          expected ← chunk_path T key stripe_index device_id generation layout_version
          if eq_path storage_handle expected then pure tt else raise invalid_argument)

  -- The optional check of a stripe against the checksum of its descriptor.
  abbrev pub check_expected : Option (List ℕ) → List ℕ → Run T (Unit {0})
  check_expected none bytes = pure tt
  check_expected (some []) bytes = if T.verify_stripe_checksums then raise not_found else pure tt
  check_expected (some (b ∷ checksum)) bytes =
      if T.verify_stripe_checksums && not (eq_bytes (checksum_bytes T bytes) (b ∷ checksum))
      then raise not_found
      else pure tt

  abbrev pub read_checked : List ℕ → ℕ → Option (List ℕ) → Run T (Option (List ℕ))
  read_checked path expected_len expected_checksum = do
    device_id ← or_raise invalid_argument (device_id_for_path T path)
    bytes ← read_file_on_device T device_id path
    if ltb 0 expected_len && not (length bytes == expected_len) then raise internal else (do
      check_expected expected_checksum bytes
      modify (counted_read T (length bytes))
      pure (some bytes))

  unfoldable pub read_placement_chunk : List ℕ → ℕ → Option (List ℕ) → Run T (Option (List ℕ))
  unfolding ensure_managed_path device_id_for_path read_file_on_device hex_digits
  read_placement_chunk storage_handle expected_len expected_checksum = do
    ensure_managed_path storage_handle
    present ← gets (λ (w : World T). T.executor.file_exists storage_handle w.files)
    if present then read_checked storage_handle expected_len expected_checksum else pure none

  unfoldable pub delete_placement_chunk : List ℕ → Run T Bool
  unfolding ensure_managed_path device_id_for_path delete_file_on_device
  delete_placement_chunk storage_handle = do
    ensure_managed_path storage_handle
    existed ← gets (λ (w : World T). T.executor.file_exists storage_handle w.files)
    device_id ← or_raise invalid_argument (device_id_for_path T storage_handle)
    delete_file_on_device T device_id storage_handle
    pure existed
