-- ===== src/MemoryTier/Sound.antt =====
-- Each operation of the memory tier keeps the account of its tier.
use context_store.Prelude.{
  ℕ, ◌^◌, ◌<◌, Bool, true, false, Option, none, some, List, inl, inr, Option-cases, if◌then◌else◌,
}
use context_store.Prelude.Int.{ℤ}
use context_store.Prelude.Results.{Result, ok, err}
use context_store.Metadata.{BlockMeta, is_expired_at, same_version}
use context_store.Router.{ObjectKey, to_string_key}
use context_store.MemoryTier.{CacheEntry, ChunksCacheEntry, MemoryTier}
use context_store.MemoryTier.Lru.{LruCache}
use context_store.MemoryTier.Objects.{
  StorageTier, Node, hit, miss, asked, asked_chunks, fill, fill_chunks, purged,
  purge_expired_l1_entry, get, get_with_meta, get_chunks, get_chunks_with_meta, peek_chunks,
}
use context_store.MemoryTier.Writes.{
  cached, put_result, put_if_absent_result, with_bytes, with_chunks, exists,
}
use context_store.MemoryTier.Keeps.{
  IsSound, IsOpen, invalidate-IsSound, invalidate-IsOpen, insert-IsSound, insert_chunks-IsSound,
  asked-IsSound, asked_chunks-IsSound, asked-IsOpen, asked_chunks-IsOpen,
}

module _ {E : Type 0} (L : LruCache CacheEntry) (M : LruCache ChunksCacheEntry) (S : StorageTier E)
    (capacity : ℕ) (small : capacity < 2 ^ 62) where
  abbrev pub Sound : Node L M S → Type 0
  Sound n = IsSound L M S capacity small n.tier

  abbrev pub Open : Node L M S → Type 0
  Open n = IsOpen L M S capacity small n.tier

  choose :
      {A : Type 0} (b : Bool) (x y : A × Node L M S)
      → Sound x.1
      → Sound y.1
      → Sound (if b then x else y).1
  choose true x y h k = h
  choose false x y h k = k

  fill-Sound :
      (key : ObjectKey) (t : MemoryTier L M) (r : Result E (Option (List ℕ × BlockMeta)) × S.State)
      → IsOpen L M S capacity small t
      → IsSound L M S capacity small t
      → Sound (fill L M S key t r).1
  unfolding fill
  fill-Sound key t (ok none, storage) o h = h
  fill-Sound key t (ok (some (bytes, meta)), storage) o h =
      insert-IsSound L M S capacity small (to_string_key key) bytes meta t o h
  fill-Sound key t (err e, storage) o h = h

  fill_chunks-Sound :
      (key : ObjectKey) (t : MemoryTier L M)
      (r : Result E (Option (List (List ℕ) × BlockMeta)) × S.State)
      → IsOpen L M S capacity small t
      → IsSound L M S capacity small t
      → Sound (fill_chunks L M S key t r).1
  unfolding fill_chunks
  fill_chunks-Sound key t (ok none, storage) o h = h
  fill_chunks-Sound key t (ok (some (segments, meta)), storage) o h =
      insert_chunks-IsSound L M S capacity small (to_string_key key) segments meta t o h
  fill_chunks-Sound key t (err e, storage) o h = h

  purged-Sound :
      {A : Type 0} (a : A) (r : Result E (Unit {0}) × Node L M S)
      → Sound r.1
      → Sound (purged L M S a r).1
  purged-Sound a (ok u, n) h = h
  purged-Sound a (err e, n) h = h

  purge-Sound :
      {A : Type 0} (a : A) (key : ObjectKey) (meta : BlockMeta) (n : Node L M S)
      → Sound n
      → Sound (purged L M S a (purge_expired_l1_entry L M S key meta n)).1
  unfolding purge_expired_l1_entry
  purge-Sound a key meta n h =
      purged-Sound a (purge_expired_l1_entry L M S key meta n)
        (invalidate-IsSound L M S capacity small (to_string_key key) n.tier h)

  cached-Sound :
      {A : Type 0} (a : A) (stored_meta : Result E (Option BlockMeta)) (fallback : BlockMeta)
      (storage : S.State) (t : MemoryTier L M) (insert : BlockMeta → MemoryTier L M)
      → IsSound L M S capacity small t
      → ((m : BlockMeta) → IsSound L M S capacity small (insert m))
      → Sound (cached L M S a stored_meta fallback storage t insert).1
  cached-Sound a (ok o) fallback storage t insert h k = k _
  cached-Sound a (err e) fallback storage t insert h k = h

  pub put_result-Sound :
      (r : Result E (Unit {0}) × S.State) (t : MemoryTier L M) (meta : BlockMeta) (str_key : List ℕ)
      (insert : BlockMeta → MemoryTier L M)
      → IsSound L M S capacity small t
      → ((m : BlockMeta) → IsSound L M S capacity small (insert m))
      → Sound (put_result L M S r t meta str_key insert).1
  put_result-Sound (ok u, storage) t meta str_key insert h k =
      cached-Sound tt (S.get_block str_key storage) meta storage t insert h k
  put_result-Sound (err e, storage) t meta str_key insert h k = h

  pub put_if_absent_result-Sound :
      (r : Result E Bool × S.State) (t : MemoryTier L M) (meta : BlockMeta) (str_key : List ℕ)
      (insert : BlockMeta → MemoryTier L M)
      → IsSound L M S capacity small t
      → ((m : BlockMeta) → IsSound L M S capacity small (insert m))
      → Sound (put_if_absent_result L M S r t meta str_key insert).1
  put_if_absent_result-Sound (ok true, storage) t meta str_key insert h k =
      cached-Sound true (S.get_block str_key storage) meta storage t insert h k
  put_if_absent_result-Sound (ok false, storage) t meta str_key insert h k = h
  put_if_absent_result-Sound (err e, storage) t meta str_key insert h k = h

  pub bytes-Sound :
      (key : ObjectKey) (n : Node L M S) (bytes : List ℕ) (m : BlockMeta)
      → Open n
      → Sound n
      → IsSound L M S capacity small (with_bytes L M S key n bytes m)
  bytes-Sound key n bytes m o h =
      insert-IsSound L M S capacity small _ bytes m _
        (invalidate-IsOpen L M S capacity small _ n.tier o)
        (invalidate-IsSound L M S capacity small _ n.tier h)

  pub chunks-Sound :
      (key : ObjectKey) (n : Node L M S) (segments : List (List ℕ)) (m : BlockMeta)
      → Open n
      → Sound n
      → IsSound L M S capacity small (with_chunks L M S key n segments m)
  chunks-Sound key n segments m o h =
      insert_chunks-IsSound L M S capacity small _ segments m _
        (invalidate-IsOpen L M S capacity small _ n.tier o)
        (invalidate-IsSound L M S capacity small _ n.tier h)

  module _ (now : ℤ) (key : ObjectKey) (n : Node L M S) (o : Open n) (h : Sound n) where
    asked_kept : IsSound L M S capacity small (asked L M S now key n)
    asked_kept = asked-IsSound L M S capacity small now key n h

    asked_chunks_kept : IsSound L M S capacity small (asked_chunks L M S now key n)
    asked_chunks_kept = asked_chunks-IsSound L M S capacity small now key n h

    -- The counters of hits and misses are no part of the account.
    hit-IsSound :
        (t : MemoryTier L M)
        → IsSound L M S capacity small t
        → IsSound L M S capacity small (hit L M S t)
    hit-IsSound t s = record { sized = s.sized; account = s.account; recorded = s.recorded }

    miss-IsSound :
        (t : MemoryTier L M)
        → IsSound L M S capacity small t
        → IsSound L M S capacity small (miss L M S t)
    miss-IsSound t s = record { sized = s.sized; account = s.account; recorded = s.recorded }

    miss-IsOpen :
        (t : MemoryTier L M)
        → IsOpen L M S capacity small t
        → IsOpen L M S capacity small (miss L M S t)
    miss-IsOpen t s = record { cache_open = s.cache_open; chunks_open = s.chunks_open }

    filled :
        (r : Result E (Option (List ℕ × BlockMeta)) × S.State)
        → Sound (fill L M S key (miss L M S (asked L M S now key n)) r).1
    filled r =
        fill-Sound key _ r (miss-IsOpen _ (asked-IsOpen L M S capacity small now key n o))
          (miss-IsSound _ asked_kept)

    filled_chunks :
        (r : Result E (Option (List (List ℕ) × BlockMeta)) × S.State)
        → Sound (fill_chunks L M S key (miss L M S (asked_chunks L M S now key n)) r).1
    filled_chunks r =
        fill_chunks-Sound key _ r
          (miss-IsOpen _ (asked_chunks-IsOpen L M S capacity small now key n o))
          (miss-IsSound _ asked_chunks_kept)

    pub get-Sound : Sound (get L M S now key n).1
    unfolding get
    get-Sound = elim (Option-cases (L.get (to_string_key key) n.tier.cache).0) [
      | inl e ↦ rw (e, get) (filled (S.get key n.storage))
      | inr (entry, e) ↦
          rw (e, get)
            (choose (is_expired_at entry.meta now) _ _
              (purge-Sound none key entry.meta _ asked_kept) (hit-IsSound _ asked_kept))
    ]

    pub get_with_meta-Sound :
        (expected : BlockMeta) → Sound (get_with_meta L M S now key n expected).1
    unfolding get_with_meta
    get_with_meta-Sound expected = elim (Option-cases (L.get (to_string_key key) n.tier.cache).0) [
      | inl e ↦ rw (e, get_with_meta) (filled (S.get_with_meta key expected n.storage))
      | inr (entry, e) ↦
          rw (e, get_with_meta)
            (choose (is_expired_at entry.meta now) _ _
              (purge-Sound none key entry.meta _ asked_kept)
              (choose (same_version entry.meta expected) _ _ (hit-IsSound _ asked_kept)
                (filled (S.get_with_meta key expected n.storage))))
    ]

    pub get_chunks-Sound : Sound (get_chunks L M S now key n).1
    unfolding get_chunks
    get_chunks-Sound = elim (Option-cases (M.get (to_string_key key) n.tier.chunks_cache).0) [
      | inl e ↦ rw (e, get_chunks) (filled_chunks (S.get_chunks key n.storage))
      | inr (entry, e) ↦
          rw (e, get_chunks)
            (choose (is_expired_at entry.meta now) _ _
              (purge-Sound none key entry.meta _ asked_chunks_kept)
              (hit-IsSound _ asked_chunks_kept))
    ]

    pub get_chunks_with_meta-Sound :
        (expected : BlockMeta) → Sound (get_chunks_with_meta L M S now key n expected).1
    unfolding get_chunks_with_meta
    get_chunks_with_meta-Sound expected =
        elim (Option-cases (M.get (to_string_key key) n.tier.chunks_cache).0) [
          | inl e ↦
              rw (e, get_chunks_with_meta)
                (filled_chunks (S.get_chunks_with_meta key expected n.storage))
          | inr (entry, e) ↦
              rw (e, get_chunks_with_meta)
                (choose (is_expired_at entry.meta now) _ _
                  (purge-Sound none key entry.meta _ asked_chunks_kept)
                  (choose (same_version entry.meta expected) _ _ (hit-IsSound _ asked_chunks_kept)
                    (filled_chunks (S.get_chunks_with_meta key expected n.storage))))
        ]

    pub peek_chunks-Sound : Sound (peek_chunks L M S now key n).1
    unfolding peek_chunks
    peek_chunks-Sound = elim (Option-cases (M.get (to_string_key key) n.tier.chunks_cache).0) [
      | inl e ↦ rw (e, peek_chunks) asked_chunks_kept
      | inr (entry, e) ↦ rw (e, peek_chunks) (hit-IsSound _ asked_chunks_kept)
    ]

    both :
        IsSound L M S capacity small (
          asked_chunks L M S now key (record { tier = asked L M S now key n; storage = n.storage }))
    both =
        asked_chunks-IsSound L M S capacity small now key
          (record { tier = asked L M S now key n; storage = n.storage }) asked_kept

    pub exists-Sound : Sound (exists L M S key n now).1
    unfolding exists
    exists-Sound = elim (Option-cases (L.get (to_string_key key) n.tier.cache).0) [
      | inr (entry, e) ↦
          rw (e, exists)
            (choose (is_expired_at entry.meta now) _ _
              (purge-Sound false key entry.meta _ asked_kept) asked_kept)
      | inl e ↦ elim (Option-cases (M.get (to_string_key key) n.tier.chunks_cache).0) [
        | inr (entry, f) ↦
            rw (e, f, exists)
              (choose (is_expired_at entry.meta now) _ _ (purge-Sound false key entry.meta _ both)
                both)
        | inl f ↦ rw (e, f, exists) both
      ]
    ]
