-- ===== src/Storage/Commit.antt =====
-- Publishing a version and removing an expired one, of kv-service/server/src/storage_tier.rs: what
-- `put` and `get` do with the metadata.
use context_store.Prelude.{
  Option, ℕ, Bool, true, false, not, ◌||◌, ◌&&◌, if◌then◌else◌, none, some, List, [], ◌∷◌, ◌++◌,
}
use context_store.Prelude.Int.{ℤ}
use context_store.Prelude.Results.{Result, ok, err}
use context_store.Prelude.Actions.{pure, raise, modify, try_call, ◌>>=◌, ◌>>◌}
use context_store.Metadata.{BlockMeta, is_expired_at, same_version}
use context_store.Router.{ObjectKey, to_string_key}
use context_store.Router.Decimal.{show}
use context_store.Router.Files.{object_digest}
use context_store.Storage.Executor.{KvError, not_found, io}
use context_store.Storage.Tier.{
  Tier, Run, on_metadata, gc_not_before, delete_paths_best_effort, hex16, hex_digits, show_ℤ,
  generation_label, layout_label, size_label, created_label, handle_label,
}

unfoldable pub is_not_found_error : KvError → Bool
is_not_found_error not_found = true
is_not_found_error (io missing) = missing
is_not_found_error e = false

module _ (T : Tier) where
  unfoldable pub content_etag : ObjectKey → ℕ → ℕ → ℤ → List ℕ
  unfolding hex_digits
  content_etag key generation size created_at = hex16 (
      T.hash64 (
        to_string_key key
        ++ (generation_label
            ++ (show generation
                ++ (size_label ++ (show size ++ (created_label ++ show_ℤ created_at)))))))

  unfoldable pub object_handle : ObjectKey → ℕ → ℕ → ℕ → ℤ → List ℕ
  unfolding hex_digits object_digest
  object_handle key generation layout_version size created_at =
      let seed =
        to_string_key key
        ++ (generation_label
            ++ (show generation
                ++ (layout_label
                    ++ (show layout_version
                        ++ (size_label
                            ++ (show size ++ (created_label ++ show_ℤ created_at))))))) in
      handle_label
      ++ (object_digest T.digest key
          ++ (45
              ∷ 103
              ∷ (show generation
                  ++ (45 ∷ 108 ∷ (show layout_version ++ (45 ∷ hex16 (T.hash64 seed)))))))

  -- The metadata of a new version.
  abbrev pub versioned : ObjectKey → BlockMeta → ℕ → ℕ → BlockMeta
  versioned key meta size generation = record meta {
    size = size;
    object_generation = generation;
    layout_version = 1;
    object_handle = object_handle key generation 1 size meta.created_at;
    content_etag = content_etag key generation size meta.created_at;
  }

  unfoldable pub prepare_write_meta : ObjectKey → BlockMeta → ℕ → Run T BlockMeta
  unfolding content_etag object_handle
  prepare_write_meta key meta size = do
    generation ← on_metadata T (T.service.next_generation (to_string_key key))
    pure (versioned key meta size generation)

  unfoldable pub delete_metadata_if_current : ObjectKey → BlockMeta → Run T Bool
  delete_metadata_if_current key meta =
      on_metadata T (T.service.delete_block_if_matches (to_string_key key) meta)

  -- The answer of the metadata service, as `commit_metadata_with_rollback` asks for it.
  abbrev pub publish : ObjectKey → BlockMeta → Bool → ℤ → Run T Bool
  publish key meta true now = on_metadata T (T.service.put_block_if_absent (to_string_key key) meta)
  publish key meta false now = do
    old ← on_metadata T (T.service.replace_block (to_string_key key) meta (gc_not_before T now))
    pure true

  -- A version that is not published loses its files.
  unfoldable pub settle : List (List ℕ) → Result KvError Bool → Run T Bool
  unfolding delete_paths_best_effort
  settle new_paths (ok true) = pure true
  settle new_paths (ok false) = do modify (delete_paths_best_effort T new_paths); pure false
  settle new_paths (err e) = do modify (delete_paths_best_effort T new_paths); raise e

  unfoldable pub commit_metadata_with_rollback :
      ObjectKey → BlockMeta → List (List ℕ) → Bool → ℤ → Run T Bool
  unfolding settle
  commit_metadata_with_rollback key meta new_paths if_absent now = do
    result ← try_call (publish key meta if_absent now)
    settle new_paths result

  unfoldable pub stripe_files_exist : List (List ℕ) → T.executor.Files → Bool
  stripe_files_exist [] files = true
  stripe_files_exist (path ∷ paths) files =
      T.executor.file_exists path files && stripe_files_exist paths files

  -- What is done about the version that is found.
  unfoldable pub expired_answer : ℤ → ObjectKey → BlockMeta → Option BlockMeta → Run T Bool
  unfolding is_expired_at same_version
  expired_answer now key expected none = pure false
  expired_answer now key expected (some current) =
      if not (is_expired_at current now) || not (same_version current expected)
      then pure false
      else on_metadata T
          (T.service.retire_block_if_matches (to_string_key key) current (gc_not_before T now))

  unfoldable pub delete_expired_current_locked : ℤ → ObjectKey → BlockMeta → Run T Bool
  unfolding expired_answer
  delete_expired_current_locked now key expected = do
    found ← on_metadata T (T.service.get_block (to_string_key key))
    expired_answer now key expected found

  -- Also `delete_if_expired`.
  unfoldable pub purge_if_expired : ℤ → ObjectKey → BlockMeta → Run T Bool
  unfolding delete_expired_current_locked
  purge_if_expired now key meta =
      if is_expired_at meta now then delete_expired_current_locked now key meta else pure false
