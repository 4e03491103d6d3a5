-- ===== src/Storage/Pointers.antt =====
-- Writing an object from pinned memory: `put_from_ptr` and the like of
-- kv-service/server/src/storage_tier.rs. The memory is the bytes at the pointer.
use context_store.Prelude.{
  ℕ, ◌==◌, Bool, true, false, if◌then◌else◌, List, [], ◌∷◌, length, concat, map,
}
use context_store.Prelude.Int.{ℤ}
use context_store.Prelude.Actions.{pure, raise, ◌>>=◌}
use context_store.Metadata.{BlockMeta}
use context_store.Router.{ObjectKey}
use context_store.Storage.Executor.{internal}
use context_store.Storage.Tier.{Tier, Run, checksum_bytes}
use context_store.Storage.Commit.{prepare_write_meta}
use context_store.Storage.Stripes.{slices, n_stripes}
use context_store.Storage.Writes.{should_stripe, put_file, write_stripes, claim_absent}

module _ (T : Tier) where
  unfoldable pub put_from_ptr_striped : ObjectKey → List ℕ → BlockMeta → Bool → ℤ → Run T Bool
  unfolding prepare_write_meta slices write_stripes
  put_from_ptr_striped key bytes meta if_not_exists now = do
    prepared ← prepare_write_meta T key meta (length bytes)
    write_stripes T (λ segments. checksum_bytes T (concat segments)) key
        (map (λ (slice : List ℕ). slice ∷ [])
          (slices T.striping_chunk_size bytes (n_stripes T.striping_chunk_size (length bytes)) 0))
        (length bytes) prepared if_not_exists now

  unfoldable pub put_from_ptr_with_options : ObjectKey → List ℕ → BlockMeta → Bool → ℤ → Run T Bool
  unfolding claim_absent should_stripe put_file put_from_ptr_striped
  put_from_ptr_with_options key bytes meta if_not_exists now =
      if length bytes == 0 then raise internal else (do
        free ← (if if_not_exists then claim_absent T key now else pure true)
        if free
            then (if should_stripe T (length bytes)
                then put_from_ptr_striped key bytes meta if_not_exists now
                else put_file T key bytes meta if_not_exists now)
            else pure false)

  unfoldable pub put_from_ptr : ObjectKey → List ℕ → BlockMeta → ℤ → Run T (Unit {0})
  unfolding put_from_ptr_with_options
  put_from_ptr key bytes meta now = do
    committed ← put_from_ptr_with_options key bytes meta false now
    pure tt

  unfoldable pub put_from_ptr_if_absent : ObjectKey → List ℕ → BlockMeta → ℤ → Run T Bool
  unfolding put_from_ptr_with_options
  put_from_ptr_if_absent key bytes meta now = put_from_ptr_with_options key bytes meta true now
