-- ===== src/MemoryTier/Objects.antt =====
-- The operations of the memory tier on objects, over the storage tier
-- (kv-service/server/src/storage_tier.rs), whose operations are an interface here. An operation takes
-- the time of its clock and leaves the tier, the storage and its result.
use context_store.Prelude.{
  ℕ, ◌+◌, ◌%◌, ◌^◌, Bool, Option, none, some, List, [], ◌∷◌, length, if◌then◌else◌,
}
use context_store.Prelude.Int.{ℤ}
use context_store.Prelude.Results.{Result, ok, err}
use context_store.Metadata.{BlockMeta, is_expired_at, same_version}
use context_store.Router.{ObjectKey, to_string_key}
use context_store.MemoryTier.{
  fetch_add, CacheEntry, ChunksCacheEntry, MemoryTier, invalidate_l1_entry, cache_insert,
  chunks_cache_insert,
}
use context_store.MemoryTier.Lru.{LruCache}

pub record StorageTier (E : Type 0) : Type 1 where
  pub State : Type 0
  pub get : ObjectKey → State → Result E (Option (List ℕ × BlockMeta)) × State
  pub get_with_meta : ObjectKey → BlockMeta → State → Result E (Option (List ℕ × BlockMeta)) × State
  pub get_chunks : ObjectKey → State → Result E (Option (List (List ℕ) × BlockMeta)) × State
  pub get_chunks_with_meta :
      ObjectKey → BlockMeta → State → Result E (Option (List (List ℕ) × BlockMeta)) × State
  pub put : ObjectKey → List ℕ → BlockMeta → State → Result E (Unit {0}) × State
  pub put_if_absent : ObjectKey → List ℕ → BlockMeta → State → Result E Bool × State
  pub put_chunks : ObjectKey → List (List ℕ) → BlockMeta → State → Result E (Unit {0}) × State
  pub put_chunks_if_absent : ObjectKey → List (List ℕ) → BlockMeta → State → Result E Bool × State
  pub delete : ObjectKey → State → Result E Bool × State
  pub exists : ObjectKey → State → Result E Bool × State
  pub delete_if_expired : ObjectKey → BlockMeta → State → Result E Bool × State
  -- `metadata().get_block`
  pub get_block : List ℕ → State → Result E (Option BlockMeta)

-- `segments.iter().map(|b| b.len()).sum()`
unfoldable pub total_len : List (List ℕ) → ℕ
total_len [] = 0
total_len (s ∷ segments) = (length s + total_len segments) % 2 ^ 64

abbrev pub or_else : {A : Type 0} → Option A → A → A
or_else none a = a
or_else (some b) a = b

module _ {E : Type 0} (L : LruCache CacheEntry) (M : LruCache ChunksCacheEntry)
    (S : StorageTier E) where
  pub record Node : Type 0 where
    pub tier : MemoryTier L M
    pub storage : S.State

  abbrev pub hit : MemoryTier L M → MemoryTier L M
  hit t = record t { hits = fetch_add t.hits 1 }

  abbrev pub miss : MemoryTier L M → MemoryTier L M
  miss t = record t { misses = fetch_add t.misses 1 }

  -- An expired entry was found: the key leaves the caches, and the storage checks for itself.
  unfoldable pub purge_expired_l1_entry : ObjectKey → BlockMeta → Node → Result E (Unit {0}) × Node
  purge_expired_l1_entry key meta n =
      let t = invalidate_l1_entry L M (to_string_key key) n.tier in
      let (r, storage) = S.delete_if_expired key meta n.storage in
      ((elim r [ ok b ↦ ok tt | err e ↦ err e ]), record { tier = t; storage = storage })

  abbrev pub purged : {A : Type 0} → A → Result E (Unit {0}) × Node → Result E A × Node
  purged a (ok u, n) = (ok a, n)
  purged a (err e, n) = (err e, n)

  -- What the storage read goes into the cache.
  unfoldable pub fill :
      ObjectKey
      → MemoryTier L M
      → Result E (Option (List ℕ × BlockMeta)) × S.State
      → Result E (Option (List ℕ × BlockMeta)) × Node
  fill key t (ok (some (bytes, meta)), storage) = (
    ok (some (bytes, meta)),
    record { tier = cache_insert L M (to_string_key key) bytes meta t; storage = storage },
  )
  fill key t (ok none, storage) = (ok none, record { tier = t; storage = storage })
  fill key t (err e, storage) = (err e, record { tier = t; storage = storage })

  unfoldable pub fill_chunks :
      ObjectKey
      → MemoryTier L M
      → Result E (Option (List (List ℕ) × BlockMeta)) × S.State
      → Result E (Option (List (List ℕ) × BlockMeta)) × Node
  unfolding total_len
  fill_chunks key t (ok (some (segments, meta)), storage) = (
    ok (some (segments, meta)),
    record {
      tier = chunks_cache_insert L M (to_string_key key) segments meta (total_len segments) t;
      storage = storage;
    },
  )
  fill_chunks key t (ok none, storage) = (ok none, record { tier = t; storage = storage })
  fill_chunks key t (err e, storage) = (err e, record { tier = t; storage = storage })

  module _ (now : ℤ) (key : ObjectKey) (n : Node) where
    -- The tier after its cache was asked for the key, which moves the entry to the front.
    abbrev pub asked : MemoryTier L M
    asked = record n.tier { cache = (L.get (to_string_key key) n.tier.cache).1 }

    abbrev pub asked_chunks : MemoryTier L M
    asked_chunks = record n.tier {
      chunks_cache = (M.get (to_string_key key) n.tier.chunks_cache).1;
    }

    unfoldable pub get : Result E (Option (List ℕ × BlockMeta)) × Node
    unfolding purge_expired_l1_entry fill
    get = elim (L.get (to_string_key key) n.tier.cache).0 [
      | some entry ↦
          if is_expired_at entry.meta now
          then purged none
              (purge_expired_l1_entry key entry.meta (record { tier = asked; storage = n.storage }))
          else (
            ok (some (entry.bytes, entry.meta)),
            record { tier = hit asked; storage = n.storage },
          )
      | none ↦ fill key (miss asked) (S.get key n.storage)
    ]

    -- An entry of another version is passed over.
    unfoldable pub get_with_meta : BlockMeta → Result E (Option (List ℕ × BlockMeta)) × Node
    unfolding purge_expired_l1_entry fill
    get_with_meta expected =
        let from_storage = fill key (miss asked) (S.get_with_meta key expected n.storage) in
        elim (L.get (to_string_key key) n.tier.cache).0 [
          | some entry ↦
              if is_expired_at entry.meta now
              then purged none (
                  purge_expired_l1_entry key entry.meta
                    (record { tier = asked; storage = n.storage }))
              else if same_version entry.meta expected
              then (
                ok (some (entry.bytes, entry.meta)),
                record { tier = hit asked; storage = n.storage },
              )
              else from_storage
          | none ↦ from_storage
        ]

    unfoldable pub get_chunks : Result E (Option (List (List ℕ) × BlockMeta)) × Node
    unfolding purge_expired_l1_entry fill_chunks
    get_chunks = elim (M.get (to_string_key key) n.tier.chunks_cache).0 [
      | some entry ↦
          if is_expired_at entry.meta now
          then purged none (
              purge_expired_l1_entry key entry.meta
                (record { tier = asked_chunks; storage = n.storage }))
          else (
            ok (some (entry.segments, entry.meta)),
            record { tier = hit asked_chunks; storage = n.storage },
          )
      | none ↦ fill_chunks key (miss asked_chunks) (S.get_chunks key n.storage)
    ]

    unfoldable pub get_chunks_with_meta :
        BlockMeta → Result E (Option (List (List ℕ) × BlockMeta)) × Node
    unfolding purge_expired_l1_entry fill_chunks
    get_chunks_with_meta expected =
        let from_storage =
          fill_chunks key (miss asked_chunks) (S.get_chunks_with_meta key expected n.storage) in
        elim (M.get (to_string_key key) n.tier.chunks_cache).0 [
          | some entry ↦
              if is_expired_at entry.meta now
              then purged none (
                  purge_expired_l1_entry key entry.meta
                    (record { tier = asked_chunks; storage = n.storage }))
              else if same_version entry.meta expected
              then (
                ok (some (entry.segments, entry.meta)),
                record { tier = hit asked_chunks; storage = n.storage },
              )
              else from_storage
          | none ↦ from_storage
        ]

    -- The memory alone, whatever the age of the entry.
    unfoldable pub peek_chunks : Option (List (List ℕ) × BlockMeta) × Node
    peek_chunks = elim (M.get (to_string_key key) n.tier.chunks_cache).0 [
      | some entry ↦ (
        some (entry.segments, entry.meta),
        record { tier = hit asked_chunks; storage = n.storage },
      )
      | none ↦ (none, record { tier = asked_chunks; storage = n.storage })
    ]
