-- ===== src/MemoryTier.antt =====
-- `MemoryTier` of kv-service/server/src/memory_tier.rs: two caches that share one budget of bytes. The
-- caches are those of the crate `lru`, behind the interface of MemoryTier/Lru. This is the build
-- without the feature `rdma`, in which no entry lies in the registered slab.
pub mod Lru
pub mod ListCache
pub mod Entries
pub mod Evict
pub mod Insert
pub mod Account
pub mod Objects
pub mod Writes
pub mod Held
pub mod Keeps
pub mod Sound
pub mod Steps
pub mod Fresh
pub mod Limit
mod Tests
use context_store.Prelude.{
  ℕ, zero, suc, ◌+◌, ◌-◌, ◌*◌, ◌%◌, ◌^◌, Bool, not, ◌&&◌, Option, none, some, List, length, ltb,
  if◌then◌else◌,
}
use context_store.Metadata.{BlockMeta}
use Lru.{LruCache}

-- `fetch_sub` and `fetch_add` on an `AtomicU64`
unfoldable pub fetch_sub : ℕ → ℕ → ℕ
fetch_sub current n = (current + (2 ^ 64 - n)) % 2 ^ 64

unfoldable pub fetch_add : ℕ → ℕ → ℕ
fetch_add current n = (current + n) % 2 ^ 64

-- What a removed entry gives back.
unfoldable pub released : {V : Type 0} → (V → ℕ) → Option V → ℕ → ℕ
unfolding fetch_sub
released size_of none current = current
released size_of (some e) current = fetch_sub current (size_of e)

module _ {V : Type 0} (L : LruCache V) (size_of : V → ℕ) where
  -- One of the two caches with the counters that both share.
  pub record Room : Type 0 where
    pub lru : L.Cache
    pub current_size : ℕ
    pub evictions : ℕ

  -- The body of the loop that evicts.
  unfoldable pub evict_one : Room → Room
  unfolding fetch_sub
  evict_one r = elim (L.pop_lru r.lru) [
    | none ↦ r
    | some (e, lru) ↦ record {
      lru = lru;
      current_size = fetch_sub r.current_size (size_of e);
      evictions = fetch_add r.evictions 1;
    }
  ]

  abbrev pub no_room : ℕ → ℕ → Room → Bool
  no_room capacity_bytes size r =
      ltb capacity_bytes ((r.current_size + size) % 2 ^ 64) && not (L.is_empty r.lru)

  -- The loop, with fuel: each round takes one entry out.
  unfoldable pub make_room : ℕ → ℕ → ℕ → Room → Room
  unfolding evict_one
  make_room zero capacity_bytes size r = r
  make_room (suc fuel) capacity_bytes size r =
      let rest = make_room fuel capacity_bytes size (evict_one r) in
      if no_room capacity_bytes size r then rest else r

  -- From the loop to the end of `cache_insert` and of `chunks_cache_insert`; as many rounds as there
  -- are entries.
  unfoldable pub insert_entry : ℕ → List ℕ → V → Room → Room
  unfolding make_room released fetch_add
  insert_entry capacity_bytes key entry r =
      let size = size_of entry in
      let room = make_room (L.len r.lru) capacity_bytes size r in
      let (old, lru) = L.put key entry room.lru in
      record {
        lru = lru;
        current_size = fetch_add (released size_of old room.current_size) size;
        evictions = room.evictions;
      }

pub record CacheEntry : Type 0 where
  pub bytes : List ℕ
  pub meta : BlockMeta

pub record ChunksCacheEntry : Type 0 where
  pub segments : List (List ℕ)
  pub meta : BlockMeta
  pub total_size : ℕ

abbrev pub data_len : CacheEntry → ℕ
data_len e = length e.bytes

abbrev pub chunks_len : ChunksCacheEntry → ℕ
chunks_len e = e.total_size

module _ (L : LruCache CacheEntry) (M : LruCache ChunksCacheEntry) where
  pub record MemoryTier : Type 0 where
    pub capacity_bytes : ℕ
    pub cache : L.Cache
    pub chunks_cache : M.Cache
    pub current_size : ℕ
    pub hits : ℕ
    pub misses : ℕ
    pub evictions : ℕ

  -- `new`, whose capacity is given in megabytes
  unfoldable pub init : ℕ → MemoryTier
  init capacity_mb = record {
    capacity_bytes = (capacity_mb * 1024 * 1024) % 2 ^ 64;
    cache = L.empty;
    chunks_cache = M.empty;
    current_size = 0;
    hits = 0;
    misses = 0;
    evictions = 0;
  }

  unfoldable pub invalidate_l1_entry : List ℕ → MemoryTier → MemoryTier
  unfolding released
  invalidate_l1_entry key t =
      let (old, cache) = L.pop key t.cache in
      let (old_chunks, chunks_cache) = M.pop key t.chunks_cache in
      record t {
        cache = cache;
        chunks_cache = chunks_cache;
        current_size = released chunks_len old_chunks (released data_len old t.current_size);
      }

  unfoldable pub cache_insert : List ℕ → List ℕ → BlockMeta → MemoryTier → MemoryTier
  unfolding invalidate_l1_entry insert_entry
  cache_insert key bytes meta t =
      let t₁ = invalidate_l1_entry key t in
      let r =
        insert_entry L data_len t₁.capacity_bytes key (record { bytes = bytes; meta = meta })
          (record { lru = t₁.cache; current_size = t₁.current_size; evictions = t₁.evictions }) in
      if ltb t.capacity_bytes (length bytes)
      then t
      else record t₁ { cache = r.lru; current_size = r.current_size; evictions = r.evictions }

  unfoldable pub chunks_cache_insert :
      List ℕ → List (List ℕ) → BlockMeta → ℕ → MemoryTier → MemoryTier
  unfolding invalidate_l1_entry insert_entry
  chunks_cache_insert key segments meta total_size t =
      let t₁ = invalidate_l1_entry key t in
      let r =
        insert_entry M chunks_len t₁.capacity_bytes key
          (record { segments = segments; meta = meta; total_size = total_size })
          (record {
            lru = t₁.chunks_cache;
            current_size = t₁.current_size;
            evictions = t₁.evictions;
          }) in
      if ltb t.capacity_bytes total_size then t else record t₁ {
        chunks_cache = r.lru;
        current_size = r.current_size;
        evictions = r.evictions;
      }
