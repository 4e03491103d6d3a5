-- ===== src/MemoryTier/Fresh.antt =====
-- What readers are served: the last write, and never an expired object or another version.
use context_store.Prelude.{
  ℕ, ◌^◌, ◌<◌, ◌≤◌, true, false, Option, none, some, List, length, ◌≡◌, ◌⊎◌, refl, ap, sym, ◌∙◌,
  subst, arith, inl, inr, Bool-cases, Option-cases,
}
use context_store.Prelude.Int.{ℤ}
use context_store.Prelude.Results.{Result, ok, err}
use context_store.Metadata.{BlockMeta, is_expired_at, same_version}
use context_store.Router.{ObjectKey, to_string_key}
use context_store.MemoryTier.{CacheEntry, ChunksCacheEntry, MemoryTier, invalidate_l1_entry}
use context_store.MemoryTier.Lru.{LruCache, find}
use context_store.MemoryTier.Entries.{find-Absent, find-remove-none}
use context_store.MemoryTier.Account.{
  IsTier, IsStored-find, invalidate_l1_entry-IsGone, invalidate_l1_entry-IsTier, cache_insert_lem,
}
use context_store.MemoryTier.Objects.{
  StorageTier, Node, purged, fill, get, get_with_meta, peek_chunks,
}
use context_store.MemoryTier.Writes.{put, with_bytes}
use context_store.MemoryTier.Keeps.{invalidate-IsOpen}

module _ {E : Type 0} (L : LruCache CacheEntry) (M : LruCache ChunksCacheEntry)
    (S : StorageTier E) where
  -- An entry that is alive is served without the storage.
  get_found :
      (now : ℤ) (key : ObjectKey) (n : Node L M S) (entry : CacheEntry)
      → find (to_string_key key) (L.contents n.tier.cache) ≡ some entry
      → is_expired_at entry.meta now ≡ false
      → ((get L M S now key n).0 ≡ ok (some (entry.bytes, entry.meta)))
        × ((get L M S now key n).1.storage ≡ n.storage)
  unfolding get
  get_found now key n entry f alive =
      rw (L.get_found (to_string_key key) n.tier.cache ∙ f, alive, get) (refl, refl)

  peek_chunks_absent :
      (now : ℤ) (key : ObjectKey) (n : Node L M S)
      → find (to_string_key key) (M.contents n.tier.chunks_cache) ≡ none
      → (peek_chunks L M S now key n).0 ≡ none
  unfolding peek_chunks
  peek_chunks_absent now key n f =
      rw (M.get_found (to_string_key key) n.tier.chunks_cache ∙ f, peek_chunks)

  module _ (now : ℤ) (key : ObjectKey) (n : Node L M S) (bytes : List ℕ) (meta stored : BlockMeta)
      (storage : S.State) where
    put_lem :
        S.put key bytes meta n.storage ≡ (ok tt, storage)
        → S.get_block (to_string_key key) storage ≡ ok (some stored)
        → put L M S key n bytes meta
          ≡ (ok tt, record { tier = with_bytes L M S key n bytes stored; storage = storage })
    unfolding put
    put_lem p q = rw (p, q)

    with_bytes_lem :
        n.tier.capacity_bytes < 2 ^ 62
        → IsTier L M n.tier
        → length (L.contents n.tier.cache) < L.cap
        → length (M.contents n.tier.chunks_cache) < M.cap
        → length bytes ≤ n.tier.capacity_bytes
        → (find (to_string_key key) (L.contents (with_bytes L M S key n bytes stored).cache)
            ≡ some (record { bytes = bytes; meta = stored }))
          × (find
                (to_string_key key)
                (M.contents (with_bytes L M S key n bytes stored).chunks_cache)
              ≡ none)
    unfolding invalidate_l1_entry
    with_bytes_lem small tier below chunks_below fits =
        let t = invalidate_l1_entry L M (to_string_key key) n.tier in
        let gone = invalidate_l1_entry-IsGone L M (to_string_key key) n.tier in
        let opened =
          invalidate-IsOpen L M S n.tier.capacity_bytes small (to_string_key key) n.tier
            (record { cache_open = below; chunks_open = chunks_below }) in
        let (_, inserted, chunks) =
          cache_insert_lem L M (to_string_key key) t bytes stored small fits opened.cache_open
            (invalidate_l1_entry-IsTier L M (to_string_key key) n.tier small tier) in
        (
          IsStored-find inserted,
          rw chunks (
              find-remove-none (to_string_key key) (to_string_key key) (M.contents t.chunks_cache)
                (find-Absent (to_string_key key) (M.contents t.chunks_cache) gone.no_chunks)),
        )

    -- In a tier of less than 2^62 bytes whose account is right, with both caches below their limit of
    -- entries: after a PUT that the storage took, of at most the capacity, whose metadata can be read
    -- back, and while the stored object is alive, a GET returns its bytes with the stored metadata and
    -- does not ask the storage, and the cache of segments has nothing for the key.
    pub put-get :
        n.tier.capacity_bytes < 2 ^ 62
        → IsTier L M n.tier
        → length (L.contents n.tier.cache) < L.cap
        → length (M.contents n.tier.chunks_cache) < M.cap
        → length bytes ≤ n.tier.capacity_bytes
        → S.put key bytes meta n.storage ≡ (ok tt, storage)
        → S.get_block (to_string_key key) storage ≡ ok (some stored)
        → is_expired_at stored now ≡ false
        → ((get L M S now key (put L M S key n bytes meta).1).0 ≡ ok (some (bytes, stored)))
          × ((get L M S now key (put L M S key n bytes meta).1).1.storage ≡ storage)
          × ((peek_chunks L M S now key (put L M S key n bytes meta).1).0 ≡ none)
    put-get small tier below chunks_below fits p q alive =
        let (f, g) = with_bytes_lem small tier below chunks_below fits in
        let (a, b) =
          get_found now key
            (record { tier = with_bytes L M S key n bytes stored; storage = storage })
            (record { bytes = bytes; meta = stored }) f alive in
        rw (put_lem p q) (a, b, peek_chunks_absent now key _ g)

  fill_answer :
      (key : ObjectKey) (t : MemoryTier L M) (r : Result E (Option (List ℕ × BlockMeta)) × S.State)
      → (fill L M S key t r).0 ≡ r.0
  unfolding fill
  fill_answer key t (ok none, storage) = refl
  fill_answer key t (ok (some (bytes, meta)), storage) = refl
  fill_answer key t (err e, storage) = refl

  purged_absent :
      (r : Result E (Unit {0}) × Node L M S) (a : List ℕ × BlockMeta)
      → (purged L M S none r).0 ≡ ok (some a)
      → ⊥
  purged_absent (ok u, n) a h = cc
  purged_absent (err e, n) a h = cc

  served_entry :
      (entry : CacheEntry) {bytes : List ℕ} {meta : BlockMeta}
      → ◌≡◌ {A = Result E (Option (List ℕ × BlockMeta))}
          (ok (some (entry.bytes, entry.meta)))
          (ok (some (bytes, meta)))
      → entry ≡ record { bytes = bytes; meta = meta }
  served_entry entry {bytes = bytes} {meta = meta} h =
      let p : entry.bytes ≡ bytes = ground (arith, h) in
      let q : entry.meta ≡ meta = ground (arith, h) in λ i. record { bytes = p i; meta = q i }

  -- Whatever a GET by metadata returns is the storage's answer, or the bytes and the metadata of the
  -- key's entry in the cache, which is alive and has the version that was asked for.
  pub get_with_meta-version :
      (now : ℤ) (key : ObjectKey) (n : Node L M S) (expected meta : BlockMeta) (bytes : List ℕ)
      → (get_with_meta L M S now key n expected).0 ≡ ok (some (bytes, meta))
      → ((S.get_with_meta key expected n.storage).0 ≡ ok (some (bytes, meta)))
        ⊎ ((find (to_string_key key) (L.contents n.tier.cache)
              ≡ some (record { bytes = bytes; meta = meta }))
            × (is_expired_at meta now ≡ false)
            × (same_version meta expected ≡ true))
  unfolding get_with_meta
  get_with_meta-version now key n expected meta bytes h =
      elim (Option-cases (L.get (to_string_key key) n.tier.cache).0) [
        | inl e ↦ inl (sym (fill_answer key _ _) ∙ (rw (e, get_with_meta) at h))
        | inr (entry, e) ↦ elim (Bool-cases (is_expired_at entry.meta now)) [
          | inl old ↦ absurd (purged_absent _ _ (rw (e, old, get_with_meta) at h))
          | inr alive ↦ elim (Bool-cases (same_version entry.meta expected)) [
            | inl same ↦
                let q = served_entry entry (rw (e, alive, same, get_with_meta) at h) in
                let p = ap CacheEntry.meta q in
                inr (
                  sym (L.get_found (to_string_key key) n.tier.cache) ∙ e ∙ ap some q,
                  subst (λ m. is_expired_at m now ≡ false) p alive,
                  subst (λ m. same_version m expected ≡ true) p same,
                )
            | inr other ↦
                inl (sym (fill_answer key _ _) ∙ (rw (e, alive, other, get_with_meta) at h))
          ]
        ]
      ]
