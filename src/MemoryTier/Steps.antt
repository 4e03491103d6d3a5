-- ===== src/MemoryTier/Steps.antt =====
-- Whatever operations callers make, in any order, the account of the bytes stays right. The
-- operations run one after the other.
use context_store.Prelude.{ℕ, ◌+◌, ◌*◌, ◌^◌, ◌<◌, List, length, ◌≡◌, refl, arith, inl}
use context_store.Prelude.Int.{ℤ}
use context_store.Metadata.{BlockMeta}
use context_store.Router.{ObjectKey}
use context_store.MemoryTier.{CacheEntry, ChunksCacheEntry, data_len, init}
use context_store.MemoryTier.Lru.{LruCache, find}
use context_store.MemoryTier.Entries.{total}
use context_store.MemoryTier.Account.{IsTier}
use context_store.MemoryTier.Held.{AllSized, held, total-AllSized}
use context_store.MemoryTier.Objects.{
  StorageTier, Node, get, get_with_meta, get_chunks, get_chunks_with_meta, peek_chunks,
}
use context_store.MemoryTier.Writes.{
  put, put_if_absent, put_chunks, put_chunks_if_absent, delete, invalidate, exists,
}
use context_store.MemoryTier.Sound.{
  Sound, Open, get-Sound, get_with_meta-Sound, get_chunks-Sound, get_chunks_with_meta-Sound,
  peek_chunks-Sound, exists-Sound, put_result-Sound, put_if_absent_result-Sound, bytes-Sound,
  chunks-Sound,
}
use context_store.MemoryTier.Keeps.{invalidate-IsSound}

module _ {E : Type 0} (L : LruCache CacheEntry) (M : LruCache ChunksCacheEntry)
    (S : StorageTier E) where
  -- One operation of a caller, at any time of the clock.
  pub data Step : Node L M S → Node L M S → Type 0 where
    got : (now : ℤ) (key : ObjectKey) (n : Node L M S) → Step n (get L M S now key n).1
    got_with_meta :
        (now : ℤ) (key : ObjectKey) (expected : BlockMeta) (n : Node L M S)
        → Step n (get_with_meta L M S now key n expected).1
    got_chunks :
        (now : ℤ) (key : ObjectKey) (n : Node L M S) → Step n (get_chunks L M S now key n).1
    got_chunks_with_meta :
        (now : ℤ) (key : ObjectKey) (expected : BlockMeta) (n : Node L M S)
        → Step n (get_chunks_with_meta L M S now key n expected).1
    peeked : (now : ℤ) (key : ObjectKey) (n : Node L M S) → Step n (peek_chunks L M S now key n).1
    stored :
        (key : ObjectKey) (bytes : List ℕ) (meta : BlockMeta) (n : Node L M S)
        → Step n (put L M S key n bytes meta).1
    stored_if_absent :
        (key : ObjectKey) (bytes : List ℕ) (meta : BlockMeta) (n : Node L M S)
        → Step n (put_if_absent L M S key n bytes meta).1
    stored_chunks :
        (key : ObjectKey) (segments : List (List ℕ)) (meta : BlockMeta) (n : Node L M S)
        → Step n (put_chunks L M S key n segments meta).1
    stored_chunks_if_absent :
        (key : ObjectKey) (segments : List (List ℕ)) (meta : BlockMeta) (n : Node L M S)
        → Step n (put_chunks_if_absent L M S key n segments meta).1
    deleted : (key : ObjectKey) (n : Node L M S) → Step n (delete L M S key n).1
    invalidated : (key : ObjectKey) (n : Node L M S) → Step n (invalidate L M S key n)
    asked_for : (now : ℤ) (key : ObjectKey) (n : Node L M S) → Step n (exists L M S key n now).1

  -- What a caller reaches from a tier of that many megabytes over any storage, never with a cache
  -- that has as many entries as it takes.
  pub data Reach (capacity_mb : ℕ) : Node L M S → Type 0 where
    start :
        (storage : S.State)
        → Reach capacity_mb (record { tier = init L M capacity_mb; storage = storage })
    next :
        {n n' : Node L M S}
        → Reach capacity_mb n
        → length (L.contents n.tier.cache) < L.cap
        → length (M.contents n.tier.chunks_cache) < M.cap
        → Step n n'
        → Reach capacity_mb n'

  step-Sound :
      (capacity : ℕ) (small : capacity < 2 ^ 62) {n n' : Node L M S}
      → Step n n'
      → Open L M S capacity small n
      → Sound L M S capacity small n
      → Sound L M S capacity small n'
  unfolding put put_if_absent put_chunks put_chunks_if_absent delete invalidate
  step-Sound c s (got now key n) o h = get-Sound L M S c s now key n o h
  step-Sound c s (got_with_meta now key expected n) o h =
      get_with_meta-Sound L M S c s now key n o h expected
  step-Sound c s (got_chunks now key n) o h = get_chunks-Sound L M S c s now key n o h
  step-Sound c s (got_chunks_with_meta now key expected n) o h =
      get_chunks_with_meta-Sound L M S c s now key n o h expected
  step-Sound c s (peeked now key n) o h = peek_chunks-Sound L M S c s now key n o h
  step-Sound c s (stored key bytes meta n) o h =
      put_result-Sound L M S c s _ n.tier meta _ _ h (λ m. bytes-Sound L M S c s key n bytes m o h)
  step-Sound c s (stored_if_absent key bytes meta n) o h =
      put_if_absent_result-Sound L M S c s _ n.tier meta _ _ h
        (λ m. bytes-Sound L M S c s key n bytes m o h)
  step-Sound c s (stored_chunks key segments meta n) o h =
      put_result-Sound L M S c s _ n.tier meta _ _ h
        (λ m. chunks-Sound L M S c s key n segments m o h)
  step-Sound c s (stored_chunks_if_absent key segments meta n) o h =
      put_if_absent_result-Sound L M S c s _ n.tier meta _ _ h
        (λ m. chunks-Sound L M S c s key n segments m o h)
  step-Sound c s (deleted key n) o h = invalidate-IsSound L M S c s _ n.tier h
  step-Sound c s (invalidated key n) o h = invalidate-IsSound L M S c s _ n.tier h
  step-Sound c s (asked_for now key n) o h = exists-Sound L M S c s now key n o h

  module _ (capacity_mb : ℕ) (small : capacity_mb * 1024 * 1024 < 2 ^ 62) where
    init-Sound :
        (storage : S.State)
        → Sound L M S
            (capacity_mb * 1024 * 1024)
            small
            (record { tier = init L M capacity_mb; storage = storage })
    unfolding init find
    init-Sound storage = record {
      sized = omega arith;
      account =
          rw (L.empty_lem, M.empty_lem)
            (record {
              counted = refl;
              first_within = omega arith;
              second_within = omega arith;
              exclusive = λ k. inl refl;
            });
      recorded = rw M.empty_lem tt;
    }

    Reach-Sound :
        {n : Node L M S} → Reach capacity_mb n → Sound L M S (capacity_mb * 1024 * 1024) small n
    Reach-Sound (start storage) = init-Sound storage
    Reach-Sound (next r below chunks_below step) =
        step-Sound _ small step (record { cache_open = below; chunks_open = chunks_below })
          (Reach-Sound r)

    -- In every state that callers reach, over any storage, as long as neither cache has as many
    -- entries as it takes before an operation: every entry of segments records the number of its
    -- bytes, the counter is exactly the bytes that the entries of both caches hold, each cache is
    -- within the capacity, and no key is in both caches. The numbers of bytes of segments are `u64`.
    pub Reach-IsTier :
        {n : Node L M S}
        → Reach capacity_mb n
        → (n.tier.capacity_bytes ≡ capacity_mb * 1024 * 1024)
          × IsTier L M n.tier
          × AllSized (M.contents n.tier.chunks_cache)
          × (n.tier.current_size
              ≡ total data_len (L.contents n.tier.cache)
                + total held (M.contents n.tier.chunks_cache))
    Reach-IsTier {n = n} r =
        let s = Reach-Sound r in
        (
          s.sized,
          s.account,
          s.recorded,
          omega (
            arith,
            s.account.counted,
            total-AllSized (M.contents n.tier.chunks_cache) s.recorded,
          ),
        )
