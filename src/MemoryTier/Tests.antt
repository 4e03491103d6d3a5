-- ===== src/MemoryTier/Tests.antt =====
-- Runs of the memory tier over caches of two entries and over a storage of one object, and an instance
-- of each theorem.
use context_store.Prelude.{
  ℕ, eq_bytes, ◌+◌, ◌*◌, ◌^◌, ◌<◌, ◌≤◌, Bool, true, false, Option, none, some, List, [], ◌∷◌, ◌++◌,
  length, ◌≡◌, ◌⊎◌, refl, arith, inl, inr,
}
use context_store.Prelude.Int.{pos}
use context_store.Prelude.Results.{ok}
use context_store.Metadata.{BlockMeta, is_expired_at, same_version}
use context_store.Router.{ObjectKey, to_string_key}
use context_store.Router
use context_store.MemoryTier
use context_store.MemoryTier.{
  CacheEntry, ChunksCacheEntry, data_len, chunks_len, MemoryTier, init, cache_insert,
}
use context_store.MemoryTier.Lru.{LruCache, find, remove, touch}
use context_store.MemoryTier.ListCache.{list_cache}
use context_store.MemoryTier.Entries.{total}
use context_store.MemoryTier.Account.{IsTier, IsStored, cache_insert_lem}
use context_store.MemoryTier.Held.{AllSized, held}
use context_store.MemoryTier.Objects.{StorageTier, Node, get, get_with_meta, peek_chunks}
use context_store.MemoryTier.Writes.{put, put_chunks}
use context_store.MemoryTier.Steps.{start, next, stored_chunks, Reach-IsTier}
use context_store.MemoryTier.Fresh.{put-get, get_with_meta-version}
use context_store.MemoryTier.Limit.{cache_insert_full}

abbrev BlockAnswer : Type 0
BlockAnswer = Option (List ℕ × BlockMeta)

abbrev meta_of : BlockAnswer → Option BlockMeta
meta_of none = none
meta_of (some (bytes, m)) = some m

abbrev in_one : BlockAnswer → Option (List (List ℕ) × BlockMeta)
in_one none = none
in_one (some (bytes, m)) = some (bytes ∷ [], m)

abbrev is_there : BlockAnswer → Bool
is_there none = false
is_there (some o) = true

abbrev join : List (List ℕ) → List ℕ
join [] = []
join (s ∷ segments) = s ++ join segments

-- A storage of one object, whatever its key.
abbrev one_object : StorageTier ℕ
one_object = record {
  State = BlockAnswer;
  get = λ k s. (ok s, s);
  get_with_meta = λ k m s. (ok s, s);
  get_chunks = λ k s. (ok (in_one s), s);
  get_chunks_with_meta = λ k m s. (ok (in_one s), s);
  put = λ k bytes m s. (ok tt, some (bytes, m));
  put_if_absent = λ k bytes m s. (ok true, some (bytes, m));
  put_chunks = λ k segments m s. (ok tt, some (join segments, m));
  put_chunks_if_absent = λ k segments m s. (ok true, some (join segments, m));
  delete = λ k s. (ok true, none);
  exists = λ k s. (ok (is_there s), s);
  delete_if_expired = λ k m s. (ok false, s);
  get_block = λ k s. ok (meta_of s);
}

abbrev caches : (V : Type 0) → LruCache V
caches V = list_cache V 2

abbrev Tiers : Type 0
Tiers = MemoryTier (caches CacheEntry) (caches ChunksCacheEntry)

abbrev Nodes : Type 0
Nodes = Node (caches CacheEntry) (caches ChunksCacheEntry) one_object

abbrev lasting : BlockMeta
lasting = record {
  device_id = 0;
  file_path = [];
  size = 2;
  object_handle = 104 ∷ [];
  object_generation = 7;
  content_etag = 101 ∷ [];
  layout_version = 1;
  created_at = pos 100;
  last_accessed_at = pos 100;
  ttl_seconds = pos 0;
  num_tokens = pos 0;
  num_layers = pos 0;
  dtype = [];
  compressed = false;
  striping = none;
}

abbrev object : ObjectKey
object = record { namespace = 110 ∷ []; object_key = 97 ∷ [] }

program : Unit {0}
unfolding list_cache find remove touch MemoryTier.init MemoryTier.cache_insert to_string_key
    Router.Decimal.show Router.Decimal.show_digits is_expired_at same_version get get_with_meta put
    peek_chunks
program = tt

abbrev fresh : Nodes
fresh = record { tier = init (caches CacheEntry) (caches ChunksCacheEntry) 1; storage = none }

abbrev after_put : Nodes
after_put =
    (put (caches CacheEntry) (caches ChunksCacheEntry) one_object object fresh (5 ∷ 6 ∷ [])
      lasting).1

put_run :
    (after_put.tier.current_size ≡ 2)
    × (length ((caches CacheEntry).contents after_put.tier.cache) ≡ 1)
unfolding program
put_run = (refl, refl)

fresh_open :
    (length ((caches CacheEntry).contents fresh.tier.cache) < 2)
    × (length ((caches ChunksCacheEntry).contents fresh.tier.chunks_cache) < 2)
unfolding program
fresh_open = (omega arith, omega arith)

abbrev after_chunks : Nodes
after_chunks =
    (put_chunks (caches CacheEntry) (caches ChunksCacheEntry) one_object object fresh
      ((5 ∷ 6 ∷ []) ∷ (7 ∷ []) ∷ []) lasting).1

Reach-IsTier_example :
    (after_chunks.tier.capacity_bytes ≡ 1 * 1024 * 1024)
    × IsTier (caches CacheEntry) (caches ChunksCacheEntry) after_chunks.tier
    × AllSized ((caches ChunksCacheEntry).contents after_chunks.tier.chunks_cache)
    × (after_chunks.tier.current_size
        ≡ total data_len ((caches CacheEntry).contents after_chunks.tier.cache)
          + total held ((caches ChunksCacheEntry).contents after_chunks.tier.chunks_cache))
unfolding list_cache
Reach-IsTier_example =
    Reach-IsTier (caches CacheEntry) (caches ChunksCacheEntry) one_object 1 (omega arith) (
      next (start none) fresh_open.0 fresh_open.1
        (stored_chunks object ((5 ∷ 6 ∷ []) ∷ (7 ∷ []) ∷ []) lasting fresh))

fresh-IsTier : IsTier (caches CacheEntry) (caches ChunksCacheEntry) fresh.tier
unfolding program
fresh-IsTier = record {
  counted = refl;
  first_within = omega arith;
  second_within = omega arith;
  exclusive = λ k. inl refl;
}

fresh_capacity : (fresh.tier.capacity_bytes < 2 ^ 62) × (2 ≤ fresh.tier.capacity_bytes)
unfolding program
fresh_capacity = (omega arith, omega arith)

lasting_alive : is_expired_at lasting (pos 5000) ≡ false
unfolding program
lasting_alive = refl

put-get_example :
    ((get (caches CacheEntry) (caches ChunksCacheEntry) one_object (pos 5000) object after_put).0
      ≡ ok (some (5 ∷ 6 ∷ [], lasting)))
    × ((get
          (caches CacheEntry)
          (caches ChunksCacheEntry)
          one_object
          (pos 5000)
          object
          after_put).1.storage
        ≡ some (5 ∷ 6 ∷ [], lasting))
    × ((peek_chunks
          (caches CacheEntry)
          (caches ChunksCacheEntry)
          one_object
          (pos 5000)
          object
          after_put).0
        ≡ none)
unfolding list_cache
put-get_example =
    put-get (caches CacheEntry) (caches ChunksCacheEntry) one_object (pos 5000) object fresh
      (5 ∷ 6 ∷ []) lasting lasting (some (5 ∷ 6 ∷ [], lasting)) fresh_capacity.0 fresh-IsTier
      fresh_open.0 fresh_open.1 fresh_capacity.1 refl refl lasting_alive

abbrev stocked : Nodes
stocked = record {
  tier = init (caches CacheEntry) (caches ChunksCacheEntry) 1;
  storage = some (8 ∷ [], lasting);
}

stocked_run :
    (get_with_meta
      (caches CacheEntry)
      (caches ChunksCacheEntry)
      one_object
      (pos 5000)
      object
      stocked
      lasting).0
    ≡ ok (some (8 ∷ [], lasting))
unfolding program
stocked_run = refl

get_with_meta-version_example :
    (one_object.get_with_meta object lasting (some (8 ∷ [], lasting))).0
      ≡ ok (some (8 ∷ [], lasting))
    ⊎ ((find (to_string_key object) ((caches CacheEntry).contents stocked.tier.cache)
          ≡ some (record { bytes = 8 ∷ []; meta = lasting }))
        × (is_expired_at lasting (pos 5000) ≡ false)
        × (same_version lasting lasting ≡ true))
get_with_meta-version_example =
    get_with_meta-version (caches CacheEntry) (caches ChunksCacheEntry) one_object (pos 5000) object
      stocked lasting lasting (8 ∷ []) stocked_run

cache_insert_lem_example :
    IsTier (caches CacheEntry) (caches ChunksCacheEntry) (
      cache_insert
        (caches CacheEntry)
        (caches ChunksCacheEntry)
        (9 ∷ [])
        (5 ∷ 6 ∷ [])
        lasting
        fresh.tier)
    × IsStored data_len fresh.tier.capacity_bytes
        (total chunks_len
          (remove (9 ∷ []) ((caches ChunksCacheEntry).contents fresh.tier.chunks_cache)))
        (9 ∷ [])
        (record { bytes = 5 ∷ 6 ∷ []; meta = lasting })
        ((caches CacheEntry).contents fresh.tier.cache)
        ((caches CacheEntry).contents
          (cache_insert
            (caches CacheEntry)
            (caches ChunksCacheEntry)
            (9 ∷ [])
            (5 ∷ 6 ∷ [])
            lasting
            fresh.tier).cache)
    × ((caches ChunksCacheEntry).contents
          (cache_insert
            (caches CacheEntry)
            (caches ChunksCacheEntry)
            (9 ∷ [])
            (5 ∷ 6 ∷ [])
            lasting
            fresh.tier).chunks_cache
        ≡ remove (9 ∷ []) ((caches ChunksCacheEntry).contents fresh.tier.chunks_cache))
unfolding list_cache
cache_insert_lem_example =
    cache_insert_lem (caches CacheEntry) (caches ChunksCacheEntry) (9 ∷ []) fresh.tier (5 ∷ 6 ∷ [])
      lasting fresh_capacity.0 fresh_capacity.1 fresh_open.0 fresh-IsTier

abbrev single : (V : Type 0) → LruCache V
single V = list_cache V 1

abbrev five : CacheEntry
five = record { bytes = 5 ∷ []; meta = lasting }

-- One entry, which is as many as the cache takes.
abbrev full_tier : MemoryTier (single CacheEntry) (single ChunksCacheEntry)
unfolding list_cache
full_tier = record {
  capacity_bytes = 100;
  cache = record { entries = (1 ∷ [], five) ∷ []; apart = (tt, tt) };
  chunks_cache = record { entries = []; apart = tt };
  current_size = 1;
  hits = 0;
  misses = 0;
  evictions = 0;
}

full_tier-IsTier : IsTier (single CacheEntry) (single ChunksCacheEntry) full_tier
unfolding program
full_tier-IsTier = record {
  counted = refl;
  first_within = omega arith;
  second_within = omega arith;
  exclusive = λ k. inr refl;
}

cache_insert_full_example :
    ((single CacheEntry).contents
        (cache_insert
          (single CacheEntry)
          (single ChunksCacheEntry)
          (9 ∷ [])
          (5 ∷ 6 ∷ [])
          lasting
          full_tier).cache
      ≡ (9 ∷ [], record { bytes = 5 ∷ 6 ∷ []; meta = lasting }) ∷ [])
    × ((cache_insert
          (single CacheEntry)
          (single ChunksCacheEntry)
          (9 ∷ [])
          (5 ∷ 6 ∷ [])
          lasting
          full_tier).current_size
        ≡ total data_len (
            (single CacheEntry).contents
              (cache_insert
                (single CacheEntry)
                (single ChunksCacheEntry)
                (9 ∷ [])
                (5 ∷ 6 ∷ [])
                lasting
                full_tier).cache)
          + total chunks_len (
              (single ChunksCacheEntry).contents
                (cache_insert
                  (single CacheEntry)
                  (single ChunksCacheEntry)
                  (9 ∷ [])
                  (5 ∷ 6 ∷ [])
                  lasting
                  full_tier).chunks_cache)
          + 1)
unfolding list_cache eq_bytes
cache_insert_full_example =
    cache_insert_full (single CacheEntry) (single ChunksCacheEntry) full_tier (9 ∷ []) (5 ∷ 6 ∷ [])
      lasting (1 ∷ []) five [] (omega arith) full_tier-IsTier (omega arith) (omega arith) refl
      (refl, tt) tt
