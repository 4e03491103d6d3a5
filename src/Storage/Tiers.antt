-- ===== src/Storage/Tiers.antt =====
-- The storage tier below the memory tier: the interface that the memory tier asks for
-- (MemoryTier/Objects), filled with the operations of the storage tier at one reading of the clock.
use context_store.Prelude.{ℕ, ◌^◌, ◌<◌, ◌≤◌, false, Option, some, List, length, ◌≡◌, ap, ◌∙◌}
use context_store.Prelude.Int.{ℤ}
use context_store.Prelude.Results.{ok}
use context_store.Metadata.{BlockMeta, is_expired_at}
use context_store.Router.{ObjectKey, to_string_key}
use context_store.MemoryTier.{CacheEntry, ChunksCacheEntry}
use context_store.MemoryTier.Lru.{LruCache}
use context_store.MemoryTier.Account.{IsTier}
use context_store.MemoryTier.Objects.{StorageTier, Node}
use context_store.MemoryTier.Objects
use context_store.MemoryTier.Writes
use context_store.MemoryTier.Fresh.{put-get}
use context_store.Storage.Paths.{path_string}
use context_store.Storage.Executor.{KvError}
use context_store.Storage.Tier.{Tier, World, gc_not_before}
use context_store.Storage.Commit.{purge_if_expired}
use context_store.Storage.Writes.{
  put, put_if_absent, put_chunks, put_chunks_if_absent, should_stripe,
}
use context_store.Storage.Reads.{
  get, get_with_meta, get_chunks, get_chunks_with_meta, delete, exists,
}
use context_store.Storage.PutGet.{Written, stored, after, put-Written, found_after, get_after}

abbrev pub storage_tier : Tier → ℤ → StorageTier KvError
storage_tier T now = record {
  State = World T;
  get = λ key w. get T key now w;
  get_with_meta = λ key meta w. get_with_meta T key meta now w;
  get_chunks = λ key w. get_chunks T key now w;
  get_chunks_with_meta = λ key meta w. get_chunks_with_meta T key meta now w;
  put = λ key bytes meta w. put T key bytes meta now w;
  put_if_absent = λ key bytes meta w. put_if_absent T key bytes meta now w;
  put_chunks = λ key segments meta w. put_chunks T key segments meta now w;
  put_chunks_if_absent = λ key segments meta w. put_chunks_if_absent T key segments meta now w;
  delete = λ key w. delete T key now w;
  exists = λ key w. exists T key now w;
  delete_if_expired = λ key meta w. purge_if_expired T now key meta w;
  get_block = λ k w. (T.service.get_block k w.metadata).0;
}

module _ (L : LruCache CacheEntry) (M : LruCache ChunksCacheEntry) (T : Tier) (now : ℤ)
    (key : ObjectKey) (n : Node L M (storage_tier T now)) (bytes : List ℕ) (meta : BlockMeta)
    (a : Written T key bytes meta n.storage) where
  -- The node after a PUT.
  abbrev node_after : Node L M (storage_tier T now)
  node_after = (Writes.put L M (storage_tier T now) key n bytes meta).1

  -- A PUT through the memory tier of an object in one file, whose calls are answered, with room in the
  -- memory: a GET serves the bytes from the memory with the metadata that were published and leaves
  -- the metadata service and the files as the PUT left them, and the storage itself, asked in its
  -- place, gives the same answer. Both tiers read the same time.
  pub tiers_agree :
      (old found : Option BlockMeta) (s₂ s₃ : T.service.State) (got : List ℕ) (f : T.executor.Files)
      (published : T.service.replace_block
          (to_string_key key)
          (stored T key bytes meta n.storage a)
          (gc_not_before T now)
          a.s₁
        ≡ (ok old, s₂))
      → n.tier.capacity_bytes < 2 ^ 62
      → IsTier L M n.tier
      → length (L.contents n.tier.cache) < L.cap
      → length (M.contents n.tier.chunks_cache) < M.cap
      → length bytes ≤ n.tier.capacity_bytes
      → should_stripe T (length bytes) ≡ false
      → is_expired_at meta now ≡ false
      → T.service.get_block (to_string_key key) s₂ ≡ (ok found, s₃)
      → T.executor.read_file (path_string a.names) a.f₁ ≡ (ok got, f)
      → ((Objects.get L M (storage_tier T now) now key node_after).0
          ≡ ok (some (bytes, stored T key bytes meta n.storage a)))
        × ((Objects.get L M (storage_tier T now) now key node_after).1.storage.metadata ≡ s₂)
        × ((Objects.get L M (storage_tier T now) now key node_after).1.storage.files ≡ a.f₁)
        × ((get T key now (Objects.get L M (storage_tier T now) now key node_after).1.storage).0
            ≡ ok (some (bytes, stored T key bytes meta n.storage a)))
  unfolding is_expired_at
  tiers_agree old found s₂ s₃ got f published small tier below chunks_below fits whole alive asked
        read =
      let w' = after T key bytes meta n.storage a now old s₂ published in
      let (served, left, peeked) =
        put-get L M (storage_tier T now) now key n bytes meta (stored T key bytes meta n.storage a)
          w' small tier below chunks_below fits
          (put-Written T key bytes meta n.storage a now old s₂ published whole)
          (ap (λ p. p.0)
            (found_after T key bytes meta n.storage a now old s₂ published found s₃ asked))
          alive in
      (
        served,
        ap (λ w. w.metadata) left,
        ap (λ w. w.files) left,
        ap (λ w. (get T key now w).0) left
            ∙ get_after T key bytes meta n.storage a now old s₂ published now found got s₃ f alive
                asked read,
      )
