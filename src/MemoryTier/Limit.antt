-- ===== src/MemoryTier/Limit.antt =====
-- The memory tier at the limit of entries of its caches: `LruCache::new(1_000_000)` of
-- kv-service/server/src/memory_tier.rs, where the eviction by the crate itself is not seen.
use context_store.Prelude.{
  ℕ, zero, suc, ◌+◌, ◌%◌, ◌^◌, ◌<◌, ◌≤◌, none, List, [], ◌∷◌, ◌++◌, length, le→ltb, ◌≡◌, refl, ap,
  ◌∙◌, arith,
}
use context_store.Metadata.{BlockMeta}
use context_store.MemoryTier.{
  fetch_add, released, Room, CacheEntry, ChunksCacheEntry, data_len, chunks_len, MemoryTier,
  make_room, insert_entry, invalidate_l1_entry, cache_insert,
}
use context_store.MemoryTier.Lru.{LruCache, Absent, find}
use context_store.MemoryTier.Entries.{total, total-append, find-Absent, remove_missing}
use context_store.MemoryTier.Account.{IsTier}

make_room_fits :
    {V : Type 0} (L : LruCache V) (size_of : V → ℕ) (fuel capacity size : ℕ) (r : Room L size_of)
    → r.current_size + size ≤ capacity
    → capacity < 2 ^ 62
    → make_room L size_of fuel capacity size r ≡ r
unfolding make_room
make_room_fits L size_of zero capacity size r h k = refl
make_room_fits L size_of (suc fuel) capacity size r h k =
    rw (le→ltb capacity ((r.current_size + size) % 2 ^ 64) (omega arith), make_room) refl

-- An insertion into a full cache, with bytes left.
insert_entry_full :
    {V : Type 0} (L : LruCache V) (size_of : V → ℕ) (capacity : ℕ) (key j : List ℕ) (entry f : V)
    (es : List (List ℕ × V)) (r : Room L size_of)
    → r.current_size + size_of entry ≤ capacity
    → capacity < 2 ^ 62
    → L.cap ≤ length (L.contents r.lru)
    → L.contents r.lru ≡ es ++ (j, f) ∷ []
    → find key (L.contents r.lru) ≡ none
    → (L.contents (insert_entry L size_of capacity key entry r).lru ≡ (key, entry) ∷ es)
      × ((insert_entry L size_of capacity key entry r).current_size
          ≡ r.current_size + size_of entry)
unfolding insert_entry released fetch_add
insert_entry_full L size_of capacity key j entry f es r fits small full last absent =
    rw (insert_entry, make_room_fits L size_of (L.len r.lru) capacity (size_of entry) r fits small)
      (
        L.put_full key j entry f r.lru es full absent last,
        rw (L.put_found key entry r.lru, absent) (omega arith),
      )

module _ (L : LruCache CacheEntry) (M : LruCache ChunksCacheEntry) (t : MemoryTier L M)
    (key bytes : List ℕ) (meta : BlockMeta) where
  -- In a tier of less than 2^62 bytes whose account is right: a key that neither cache has enters a
  -- cache that has as many entries as it takes, at least one, though there is room for its bytes. The
  -- least recently used entry goes, and its bytes stay in the counter.
  pub cache_insert_full :
      (j : List ℕ) (f : CacheEntry) (es : List (List ℕ × CacheEntry))
      → t.capacity_bytes < 2 ^ 62
      → IsTier L M t
      → t.current_size + length bytes ≤ t.capacity_bytes
      → L.cap ≤ length (L.contents t.cache)
      → L.contents t.cache ≡ es ++ (j, f) ∷ []
      → Absent key (L.contents t.cache)
      → Absent key (M.contents t.chunks_cache)
      → (L.contents (cache_insert L M key bytes meta t).cache
          ≡ (key, record { bytes = bytes; meta = meta }) ∷ es)
        × ((cache_insert L M key bytes meta t).current_size
            ≡ total data_len (L.contents (cache_insert L M key bytes meta t).cache)
              + total chunks_len (M.contents (cache_insert L M key bytes meta t).chunks_cache)
              + length f.bytes)
  unfolding cache_insert invalidate_l1_entry insert_entry released fetch_add
  cache_insert_full j f es small h fits full last absent absent_chunks =
      let p = L.pop_removed key t.cache ∙ remove_missing key (L.contents t.cache) absent in
      let q =
        M.pop_removed key t.chunks_cache
        ∙ remove_missing key (M.contents t.chunks_cache) absent_chunks in
      let one = invalidate_l1_entry L M key t in
      let same : one.current_size ≡ t.current_size = rw (
        L.pop_found key t.cache,
        find-Absent key (L.contents t.cache) absent,
        M.pop_found key t.chunks_cache,
        find-Absent key (M.contents t.chunks_cache) absent_chunks,
      ) in
      let (a, b) =
        insert_entry_full L data_len t.capacity_bytes key j (record { bytes = bytes; meta = meta })
          f es
          (record { lru = one.cache; current_size = one.current_size; evictions = one.evictions })
          (omega arith) small (omega (arith, ap length p)) (p ∙ last)
          (rw p (find-Absent key (L.contents t.cache) absent)) in
      rw (le→ltb t.capacity_bytes (length bytes) (omega arith), cache_insert)
        (
          a,
          b
              ∙ omega (
                arith,
                h.counted,
                same,
                ap (total data_len) a,
                ap (total chunks_len) q,
                ap (total data_len) last,
                total-append data_len es ((j, f) ∷ []),
              ),
        )
