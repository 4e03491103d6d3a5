-- ===== src/Storage/TierTests.antt =====
-- A run through both tiers, and an instance of their theorem.
use context_store.Prelude.{
  ℕ, ◌^◌, ◌<◌, ◌≤◌, Option, none, some, List, [], ◌∷◌, length, ◌≡◌, refl, arith, inl,
}
use context_store.Prelude.Int.{pos}
use context_store.Prelude.Results.{Result, ok}
use context_store.Metadata.{BlockMeta}
use context_store.Router.{to_string_key}
use context_store.Metadata.{is_expired_at}
use context_store.Prelude.Actions.{or_raise, ◌>>=◌}
use context_store.Router.Decimal.{show}
use context_store.Router.Files.{
  key_to_versioned_path, chunk_versioned_path, route, chunk_device, object_digest,
}
use context_store.MemoryTier.Objects.{or_else}
use context_store.Storage.Paths.{path_string, file_name}
use context_store.Storage.Stripes.{slices, stripes_of}
use context_store.Storage.Executor.{KvError}
use context_store.MemoryTier.{CacheEntry, ChunksCacheEntry, init}
use context_store.MemoryTier
use context_store.MemoryTier.ListCache.{list_cache}
use context_store.MemoryTier.Account.{IsTier}
use context_store.MemoryTier.Objects.{Node}
use context_store.MemoryTier.Objects
use context_store.MemoryTier.Writes
use context_store.Storage.Tiers.{storage_tier, tiers_agree}
use context_store.Storage.Tier.{on_metadata, on_files}
use context_store.Storage.Writes.{put, put_chunks, place, write_batch_vectored, should_stripe}
use context_store.Storage.Reads.{get, get_chunks, read_aligned_batch}
use context_store.Storage.PutGet.{Written, stored}
use context_store.Storage.Tiny.{tiny, object, plain_meta, empty}

-- What the runs unfold.
program : Unit {0}
unfolding list_cache MemoryTier.init slices stripes_of put get put_chunks get_chunks
    key_to_versioned_path chunk_versioned_path route chunk_device to_string_key show path_string
    file_name object_digest read_aligned_batch write_batch_vectored place should_stripe
    is_expired_at or_raise on_metadata on_files ◌>>=◌
program = tt

abbrev Nodes : Type 0
Nodes = Node (list_cache CacheEntry 2) (list_cache ChunksCacheEntry 2) (storage_tier tiny (pos 100))

abbrev fresh : Nodes
fresh = record {
  tier = init (list_cache CacheEntry 2) (list_cache ChunksCacheEntry 2) 1;
  storage = empty;
}

abbrev file_names : List (List ℕ)
file_names = or_else (key_to_versioned_path tiny.digest tiny.router object 0 1 1) []

abbrev few_bytes : List ℕ
few_bytes = 7 ∷ 8 ∷ []

few_written : Written tiny object few_bytes plain_meta empty
unfolding program
few_written = record {
  generation = 1;
  device = 0;
  names = file_names;
  s₁ = [];
  f₁ = (path_string file_names, some few_bytes) ∷ [];
  numbered = refl;
  has_device = refl;
  named = refl;
  written = refl;
}

few_meta : BlockMeta
unfolding program
few_meta = stored tiny object few_bytes plain_meta empty few_written

abbrev node : Nodes
node =
    (Writes.put (list_cache CacheEntry 2) (list_cache ChunksCacheEntry 2)
      (storage_tier tiny (pos 100)) object fresh few_bytes plain_meta).1

abbrev read : Result KvError (Option (List ℕ × BlockMeta)) × Nodes
read =
    Objects.get (list_cache CacheEntry 2) (list_cache ChunksCacheEntry 2)
      (storage_tier tiny (pos 100)) (pos 100) object node

fresh-IsTier : IsTier (list_cache CacheEntry 2) (list_cache ChunksCacheEntry 2) fresh.tier
unfolding program
fresh-IsTier = record {
  counted = refl;
  first_within = omega arith;
  second_within = omega arith;
  exclusive = λ k. inl refl;
}

fresh_room :
    (fresh.tier.capacity_bytes < 2 ^ 62)
    × (2 ≤ fresh.tier.capacity_bytes)
    × (length ((list_cache CacheEntry 2).contents fresh.tier.cache) < 2)
    × (length ((list_cache ChunksCacheEntry 2).contents fresh.tier.chunks_cache) < 2)
unfolding program
fresh_room = (omega arith, omega arith, omega arith, omega arith)

tiers_agree_example :
    (read.0 ≡ ok (some (few_bytes, few_meta)))
    × (read.1.storage.metadata ≡ (to_string_key object, some few_meta) ∷ [])
    × (read.1.storage.files ≡ (path_string file_names, some few_bytes) ∷ [])
    × ((get tiny object (pos 100) read.1.storage).0 ≡ ok (some (few_bytes, few_meta)))
unfolding program few_written few_meta
tiers_agree_example =
    tiers_agree (list_cache CacheEntry 2) (list_cache ChunksCacheEntry 2) tiny (pos 100) object
      fresh few_bytes plain_meta few_written none (some few_meta)
      ((to_string_key object, some few_meta) ∷ []) ((to_string_key object, some few_meta) ∷ [])
      few_bytes ((path_string file_names, some few_bytes) ∷ []) refl fresh_room.0 fresh-IsTier
      fresh_room.2 fresh_room.3 fresh_room.1 refl refl refl refl
