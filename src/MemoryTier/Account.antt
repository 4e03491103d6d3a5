-- ===== src/MemoryTier/Account.antt =====
-- The account of the memory tier: what the caches hold, and that invalidation and insertion keep it.
use context_store.Prelude.{
  ℕ, ◌+◌, ◌^◌, ◌<◌, ◌≤◌, Option, none, some, List, ◌∷◌, length, le→ltb, lt→ltb, ◌≡◌, ◌⊎◌, ◌++◌, ap,
  sym, ◌∙◌, subst, arith, inl, inr, Bool-cases, eq_bytes, eq_bytes→eq, eq_bytes_refl,
}
use context_store.Metadata.{BlockMeta}
use context_store.MemoryTier.{
  fetch_sub, released, Room, CacheEntry, ChunksCacheEntry, data_len, chunks_len, MemoryTier,
  insert_entry, invalidate_l1_entry, cache_insert, chunks_cache_insert,
}
use context_store.MemoryTier.Lru.{LruCache, Absent, find, remove}
use context_store.MemoryTier.Entries.{
  total, size_found, total-remove, length-remove, remove-Absent, find-remove-none, find-init_none,
  find-Absent,
}
use context_store.MemoryTier.Evict.{IsTrimmed}
use context_store.MemoryTier.Insert.{IsInserted, insert_entry_lem}

-- The account of two caches: the counter is the bytes of both, each is within the capacity, and no
-- key is in both.
pub record IsAccount {V W : Type 0} (size_v : V → ℕ) (size_w : W → ℕ) (capacity count : ℕ)
    (es : List (List ℕ × V)) (fs : List (List ℕ × W)) : Type 0 where
  pub counted : count ≡ total size_v es + total size_w fs
  pub first_within : total size_v es ≤ capacity
  pub second_within : total size_w fs ≤ capacity
  pub exclusive : (k : List ℕ) → (find k es ≡ none) ⊎ (find k fs ≡ none)

IsAccount-swap :
    {V W : Type 0} {size_v : V → ℕ} {size_w : W → ℕ} {capacity count : ℕ} {es : List (List ℕ × V)}
    {fs : List (List ℕ × W)}
    → IsAccount size_v size_w capacity count es fs
    → IsAccount size_w size_v capacity count fs es
IsAccount-swap h = record {
  counted = omega (arith, h.counted);
  first_within = h.second_within;
  second_within = h.first_within;
  exclusive = λ k. elim (h.exclusive k) [ inl e ↦ inr e | inr e ↦ inl e ];
}

released_lem :
    {V : Type 0} (size_of : V → ℕ) (o : Option V) (current : ℕ)
    → size_found size_of o ≤ current
    → current < 2 ^ 64
    → released size_of o current + size_found size_of o ≡ current
unfolding released fetch_sub
released_lem size_of none current h k = omega arith
released_lem size_of (some e) current h k = omega arith

-- What an insertion of an entry does to its cache: it stands in front, and behind it what the loop
-- kept of the cache without the key.
pub record IsStored {V : Type 0} (size_of : V → ℕ) (capacity other : ℕ) (key : List ℕ) (entry : V)
    (before after : List (List ℕ × V)) : Type 0 where
  pub rest : List (List ℕ × V)
  pub stored : after ≡ (key, entry) ∷ rest
  pub trimmed : IsTrimmed size_of capacity (other + size_of entry) (remove key before) rest

pub IsStored-find :
    {V : Type 0} {size_of : V → ℕ} {capacity other : ℕ} {key : List ℕ} {entry : V}
    {before after : List (List ℕ × V)}
    → IsStored size_of capacity other key entry before after
    → find key after ≡ some entry
unfolding find
IsStored-find {key = key} h = rw (h.stored, eq_bytes_refl key)

still_exclusive :
    {V W : Type 0} {key : List ℕ} {entry : V} {rest es before : List (List ℕ × V)}
    (gone : List (List ℕ × V)) (fs : List (List ℕ × W)) (k : List ℕ)
    → es ≡ (key, entry) ∷ rest
    → before ≡ rest ++ gone
    → Absent key fs
    → (find k before ≡ none) ⊎ (find k fs ≡ none)
    → (find k es ≡ none) ⊎ (find k fs ≡ none)
unfolding find
still_exclusive {key = key} {rest = rest} gone fs k p q absent ex =
    elim (Bool-cases (eq_bytes key k)) [
      | inl same ↦
          inr (subst (λ i. find i fs ≡ none) (eq_bytes→eq key k same) (find-Absent key fs absent))
      | inr other ↦ elim ex [
        | inl e ↦ inl (rw (p, other, find) (find-init_none k rest gone (sym (ap (find k) q) ∙ e)))
        | inr e ↦ inr e
      ]
    ]

module _ {V W : Type 0} (L : LruCache V) (size_v : V → ℕ) (size_w : W → ℕ) (capacity : ℕ)
    (small : capacity < 2 ^ 62) where
  -- A key is taken out of a cache, whatever it held.
  removed-IsAccount :
      (key : List ℕ) (c : L.Cache) (count : ℕ) (fs : List (List ℕ × W))
      → IsAccount size_v size_w capacity count (L.contents c) fs
      → IsAccount size_v size_w capacity
          (released size_v (L.pop key c).0 count)
          (L.contents (L.pop key c).1)
          fs
  removed-IsAccount key c count fs h =
      let a = total-remove size_v key (L.contents c) in
      let p = ap (total size_v) (L.pop_removed key c) in
      let q = ap (size_found size_v) (L.pop_found key c) in
      let r =
        released_lem size_v (L.pop key c).0 count (omega (arith, h.counted))
          (omega (arith, h.counted, h.first_within, h.second_within)) in
      record {
        counted = omega (arith, h.counted);
        first_within = omega (arith, h.first_within);
        second_within = h.second_within;
        exclusive = λ k. elim (h.exclusive k) [
          | inl e ↦ inl (rw (L.pop_removed key c) (find-remove-none k key _ e))
          | inr e ↦ inr e
        ];
      }

  -- An entry that fits is put into a cache in which its key is absent.
  IsInserted-IsAccount :
      (key : List ℕ) (entry : V) (r : Room L size_v) (fs : List (List ℕ × W))
      → size_v entry ≤ capacity
      → length (L.contents r.lru) < L.cap
      → Absent key (L.contents r.lru)
      → Absent key fs
      → IsAccount size_v size_w capacity r.current_size (L.contents r.lru) fs
      → IsAccount size_v size_w capacity
          (insert_entry L size_v capacity key entry r).current_size
          (L.contents (insert_entry L size_v capacity key entry r).lru)
          fs
        × IsInserted L size_v capacity
            (total size_w fs)
            key
            entry
            (L.contents r.lru)
            (insert_entry L size_v capacity key entry r)
  IsInserted-IsAccount key entry r fs s below absent other h =
      let i =
        insert_entry_lem L size_v capacity (total size_w fs) key entry small h.second_within s r
          below (record { counted = h.counted; within = h.first_within; absent = absent }) in
      (
        record {
          counted = i.counted;
          first_within = i.within;
          second_within = h.second_within;
          exclusive = λ k.
              still_exclusive i.trimmed.gone fs k i.stored i.trimmed.split other (h.exclusive k);
        },
        i,
      )

module _ (L : LruCache CacheEntry) (M : LruCache ChunksCacheEntry) where
  -- The account of a tier.
  abbrev pub IsTier : MemoryTier L M → Type 0
  IsTier t =
      IsAccount data_len chunks_len t.capacity_bytes t.current_size (L.contents t.cache)
        (M.contents t.chunks_cache)

  -- A key is in neither cache.
  pub record IsGone (key : List ℕ) (t : MemoryTier L M) : Type 0 where
    pub no_entry : Absent key (L.contents t.cache)
    pub no_chunks : Absent key (M.contents t.chunks_cache)

  module _ (key : List ℕ) (t : MemoryTier L M) where
    pub invalidate_l1_entry-IsTier :
        t.capacity_bytes < 2 ^ 62 → IsTier t → IsTier (invalidate_l1_entry L M key t)
    unfolding invalidate_l1_entry
    invalidate_l1_entry-IsTier small h = IsAccount-swap (
        removed-IsAccount M chunks_len data_len t.capacity_bytes small key t.chunks_cache _ _ (
          IsAccount-swap (
            removed-IsAccount L data_len chunks_len t.capacity_bytes small key t.cache
              t.current_size (M.contents t.chunks_cache) h)))

    pub invalidate_l1_entry-IsGone : IsGone key (invalidate_l1_entry L M key t)
    unfolding invalidate_l1_entry
    invalidate_l1_entry-IsGone = record {
      no_entry =
          rw (L.pop_removed key t.cache)
            (remove-Absent key (L.contents t.cache) (L.distinct t.cache));
      no_chunks =
          rw (M.pop_removed key t.chunks_cache)
            (remove-Absent key (M.contents t.chunks_cache) (M.distinct t.chunks_cache));
    }

    -- In a tier of less than 2^62 bytes whose account is right, an entry of at most the capacity, put
    -- into a cache below its limit of entries, keeps the account right. It stands in front of its cache, behind it the cache without the key, less its least
    -- recently used entries, as few as leave everything within the capacity, or all; the other cache
    -- only loses the key.
    pub cache_insert_lem :
        (bytes : List ℕ) (meta : BlockMeta)
        → t.capacity_bytes < 2 ^ 62
        → length bytes ≤ t.capacity_bytes
        → length (L.contents t.cache) < L.cap
        → IsTier t
        → IsTier (cache_insert L M key bytes meta t)
          × IsStored data_len t.capacity_bytes
              (total chunks_len (remove key (M.contents t.chunks_cache)))
              key
              (record { bytes = bytes; meta = meta })
              (L.contents t.cache)
              (L.contents (cache_insert L M key bytes meta t).cache)
          × (M.contents (cache_insert L M key bytes meta t).chunks_cache
              ≡ remove key (M.contents t.chunks_cache))
    unfolding cache_insert
    cache_insert_lem bytes meta small fits below h =
        let one = invalidate_l1_entry L M key t in
        let gone = invalidate_l1_entry-IsGone in
        let (account, i) =
          IsInserted-IsAccount L data_len chunks_len t.capacity_bytes small key
            (record { bytes = bytes; meta = meta })
            (record { lru = one.cache; current_size = one.current_size; evictions = one.evictions })
            (M.contents one.chunks_cache) fits
            (omega (
              arith,
              ap length (L.pop_removed key t.cache),
              length-remove key (L.contents t.cache),
            ))
            gone.no_entry gone.no_chunks (invalidate_l1_entry-IsTier small h) in
        rw (le→ltb t.capacity_bytes (length bytes) fits, cache_insert)
          (
            account,
            record {
              rest = i.rest;
              stored = i.stored;
              trimmed =
                  rw (L.pop_removed key t.cache, M.pop_removed key t.chunks_cache) at (i.trimmed);
            },
            M.pop_removed key t.chunks_cache,
          )

    -- The same for an entry of segments, whose cache is the other one.
    pub chunks_cache_insert_lem :
        (segments : List (List ℕ)) (meta : BlockMeta) (total_size : ℕ)
        → t.capacity_bytes < 2 ^ 62
        → total_size ≤ t.capacity_bytes
        → length (M.contents t.chunks_cache) < M.cap
        → IsTier t
        → IsTier (chunks_cache_insert L M key segments meta total_size t)
          × IsStored chunks_len t.capacity_bytes
              (total data_len (remove key (L.contents t.cache)))
              key
              (record { segments = segments; meta = meta; total_size = total_size })
              (M.contents t.chunks_cache)
              (M.contents (chunks_cache_insert L M key segments meta total_size t).chunks_cache)
          × (L.contents (chunks_cache_insert L M key segments meta total_size t).cache
              ≡ remove key (L.contents t.cache))
    unfolding chunks_cache_insert
    chunks_cache_insert_lem segments meta total_size small fits below h =
        let one = invalidate_l1_entry L M key t in
        let gone = invalidate_l1_entry-IsGone in
        let (account, i) =
          IsInserted-IsAccount M chunks_len data_len t.capacity_bytes small key
            (record { segments = segments; meta = meta; total_size = total_size })
            (record {
              lru = one.chunks_cache;
              current_size = one.current_size;
              evictions = one.evictions;
            })
            (L.contents one.cache) fits
            (omega (
              arith,
              ap length (M.pop_removed key t.chunks_cache),
              length-remove key (M.contents t.chunks_cache),
            ))
            gone.no_chunks gone.no_entry (IsAccount-swap (invalidate_l1_entry-IsTier small h)) in
        rw (le→ltb t.capacity_bytes total_size fits, chunks_cache_insert)
          (
            IsAccount-swap account,
            record {
              rest = i.rest;
              stored = i.stored;
              trimmed =
                  rw (M.pop_removed key t.chunks_cache, L.pop_removed key t.cache) at (i.trimmed);
            },
            L.pop_removed key t.cache,
          )

    -- A larger one changes nothing.
    pub cache_insert_large :
        (bytes : List ℕ) (meta : BlockMeta)
        → t.capacity_bytes < length bytes
        → cache_insert L M key bytes meta t ≡ t
    unfolding cache_insert
    cache_insert_large bytes meta h = rw (lt→ltb _ _ h, cache_insert)

    pub chunks_cache_insert_large :
        (segments : List (List ℕ)) (meta : BlockMeta) (total_size : ℕ)
        → t.capacity_bytes < total_size
        → chunks_cache_insert L M key segments meta total_size t ≡ t
    unfolding chunks_cache_insert
    chunks_cache_insert_large segments meta total_size h = rw (lt→ltb _ _ h, chunks_cache_insert)
