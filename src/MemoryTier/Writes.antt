-- ===== src/MemoryTier/Writes.antt =====
-- The operations of the memory tier that write, and the tests for an object. Each is persisted before
-- it enters a cache.
use context_store.Prelude.{Bool, true, false, Option, none, some, List, ℕ, if◌then◌else◌}
use context_store.Prelude.Int.{ℤ}
use context_store.Prelude.Results.{Result, ok, err}
use context_store.Metadata.{BlockMeta, is_expired_at}
use context_store.Router.{ObjectKey, to_string_key}
use context_store.MemoryTier.{
  CacheEntry, ChunksCacheEntry, MemoryTier, invalidate_l1_entry, cache_insert, chunks_cache_insert,
}
use context_store.MemoryTier.Lru.{LruCache}
use context_store.MemoryTier.Objects.{
  StorageTier, total_len, or_else, Node, purge_expired_l1_entry, purged, asked,
}

module _ {E : Type 0} (L : LruCache CacheEntry) (M : LruCache ChunksCacheEntry)
    (S : StorageTier E) where
  -- After the storage took a write: `stored` is what its metadata say now, and `insert` the new
  -- tier.
  abbrev pub cached :
      {A : Type 0}
      → A
      → Result E (Option BlockMeta)
      → BlockMeta
      → S.State
      → MemoryTier L M
      → (BlockMeta → MemoryTier L M)
      → Result E A × Node L M S
  cached a (ok stored) fallback storage t insert =
      (ok a, record { tier = insert (or_else stored fallback); storage = storage })
  cached a (err e) fallback storage t insert = (err e, record { tier = t; storage = storage })

  abbrev pub put_result :
      Result E (Unit {0}) × S.State
      → MemoryTier L M
      → BlockMeta
      → List ℕ
      → (BlockMeta → MemoryTier L M)
      → Result E (Unit {0}) × Node L M S
  put_result (ok u, storage) t meta str_key insert =
      cached tt (S.get_block str_key storage) meta storage t insert
  put_result (err e, storage) t meta str_key insert =
      (err e, record { tier = t; storage = storage })

  abbrev pub put_if_absent_result :
      Result E Bool × S.State
      → MemoryTier L M
      → BlockMeta
      → List ℕ
      → (BlockMeta → MemoryTier L M)
      → Result E Bool × Node L M S
  put_if_absent_result (ok true, storage) t meta str_key insert =
      cached true (S.get_block str_key storage) meta storage t insert
  put_if_absent_result (ok false, storage) t meta str_key insert =
      (ok false, record { tier = t; storage = storage })
  put_if_absent_result (err e, storage) t meta str_key insert =
      (err e, record { tier = t; storage = storage })

  module _ (key : ObjectKey) (n : Node L M S) where
    abbrev pub with_bytes : List ℕ → BlockMeta → MemoryTier L M
    with_bytes bytes stored_meta =
        cache_insert L M (to_string_key key) bytes stored_meta
          (invalidate_l1_entry L M (to_string_key key) n.tier)

    abbrev pub with_chunks : List (List ℕ) → BlockMeta → MemoryTier L M
    with_chunks segments stored_meta =
        chunks_cache_insert L M (to_string_key key) segments stored_meta (total_len segments)
          (invalidate_l1_entry L M (to_string_key key) n.tier)

    unfoldable pub put : List ℕ → BlockMeta → Result E (Unit {0}) × Node L M S
    put bytes meta =
        put_result (S.put key bytes meta n.storage) n.tier meta (to_string_key key)
          (with_bytes bytes)

    unfoldable pub put_if_absent : List ℕ → BlockMeta → Result E Bool × Node L M S
    put_if_absent bytes meta =
        put_if_absent_result (S.put_if_absent key bytes meta n.storage) n.tier meta
          (to_string_key key) (with_bytes bytes)

    unfoldable pub put_chunks : List (List ℕ) → BlockMeta → Result E (Unit {0}) × Node L M S
    unfolding total_len
    put_chunks segments meta =
        put_result (S.put_chunks key segments meta n.storage) n.tier meta (to_string_key key)
          (with_chunks segments)

    unfoldable pub put_chunks_if_absent : List (List ℕ) → BlockMeta → Result E Bool × Node L M S
    unfolding total_len
    put_chunks_if_absent segments meta =
        put_if_absent_result (S.put_chunks_if_absent key segments meta n.storage) n.tier meta
          (to_string_key key) (with_chunks segments)

    unfoldable pub delete : Result E Bool × Node L M S
    delete =
        let t = invalidate_l1_entry L M (to_string_key key) n.tier in
        let (r, storage) = S.delete key n.storage in (r, record { tier = t; storage = storage })

    unfoldable pub invalidate : Node L M S
    invalidate = record n { tier = invalidate_l1_entry L M (to_string_key key) n.tier }

    -- The caches are asked first; an expired entry is purged.
    unfoldable pub exists : ℤ → Result E Bool × Node L M S
    unfolding purge_expired_l1_entry
    exists now =
        let t = asked L M S now key n in
        let t₂ = record t { chunks_cache = (M.get (to_string_key key) t.chunks_cache).1 } in
        let (r, storage) = S.exists key n.storage in
        elim (L.get (to_string_key key) n.tier.cache).0 [
          | some entry ↦
              if is_expired_at entry.meta now
              then purged L M S false (
                  purge_expired_l1_entry L M S key entry.meta
                    (record { tier = t; storage = n.storage }))
              else (ok true, record { tier = t; storage = n.storage })
          | none ↦ elim (M.get (to_string_key key) t.chunks_cache).0 [
            | some entry ↦
                if is_expired_at entry.meta now
                then purged L M S false (
                    purge_expired_l1_entry L M S key entry.meta
                      (record { tier = t₂; storage = n.storage }))
                else (ok true, record { tier = t₂; storage = n.storage })
            | none ↦ (r, record { tier = t₂; storage = storage })
          ]
        ]
