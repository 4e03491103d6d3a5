-- ===== src/MemoryTier/Keeps.antt =====
-- Each operation of the memory tier keeps the account of the bytes.
use context_store.Prelude.{ℕ, ◌^◌, ◌<◌, ◌≤◌, List, length, ◌≡◌, ap, ◌∙◌, arith, inl, inr, ◌⊎◌}
use context_store.Prelude.Int.{ℤ}
use context_store.Metadata.{BlockMeta}
use context_store.Router.{ObjectKey, to_string_key}
use context_store.MemoryTier.{
  CacheEntry, ChunksCacheEntry, data_len, chunks_len, MemoryTier, invalidate_l1_entry, cache_insert,
  chunks_cache_insert,
}
use context_store.MemoryTier.Lru.{LruCache}
use context_store.MemoryTier.Entries.{
  total, total-touch, find-touch-none, length-remove, length-touch,
}
use context_store.MemoryTier.Account.{
  IsTier, invalidate_l1_entry-IsTier, cache_insert_lem, chunks_cache_insert_lem, cache_insert_large,
  chunks_cache_insert_large,
}
use context_store.MemoryTier.Held.{AllSized, touch-AllSized, remove-AllSized, insert-AllSized}
use context_store.MemoryTier.Objects.{StorageTier, Node, total_len, asked, asked_chunks}

le_or_lt : (a b : ℕ) → (a ≤ b) ⊎ (b < a)
le_or_lt a b = grind arith

module _ {E : Type 0} (L : LruCache CacheEntry) (M : LruCache ChunksCacheEntry) (S : StorageTier E)
    (capacity : ℕ) (small : capacity < 2 ^ 62) where
  -- The account of a tier with that capacity.
  pub record IsSound (t : MemoryTier L M) : Type 0 where
    pub sized : t.capacity_bytes ≡ capacity
    pub account : IsTier L M t
    pub recorded : AllSized (M.contents t.chunks_cache)

  -- Both caches can take one more entry.
  pub record IsOpen (t : MemoryTier L M) : Type 0 where
    pub cache_open : length (L.contents t.cache) < L.cap
    pub chunks_open : length (M.contents t.chunks_cache) < M.cap

  pub invalidate-IsSound :
      (key : List ℕ) (t : MemoryTier L M) → IsSound t → IsSound (invalidate_l1_entry L M key t)
  unfolding invalidate_l1_entry
  invalidate-IsSound key t h = record {
    sized = h.sized;
    account = invalidate_l1_entry-IsTier L M key t (omega (arith, h.sized)) h.account;
    recorded =
        rw (M.pop_removed key t.chunks_cache)
          (remove-AllSized key (M.contents t.chunks_cache) h.recorded);
  }

  pub invalidate-IsOpen :
      (key : List ℕ) (t : MemoryTier L M) → IsOpen t → IsOpen (invalidate_l1_entry L M key t)
  unfolding invalidate_l1_entry
  invalidate-IsOpen key t h = record {
    cache_open = omega (
      arith,
      h.cache_open,
      ap length (L.pop_removed key t.cache),
      length-remove key (L.contents t.cache),
    );
    chunks_open = omega (
      arith,
      h.chunks_open,
      ap length (M.pop_removed key t.chunks_cache),
      length-remove key (M.contents t.chunks_cache),
    );
  }

  insert_sized :
      (key bytes : List ℕ) (meta : BlockMeta) (t : MemoryTier L M)
      → (cache_insert L M key bytes meta t).capacity_bytes ≡ t.capacity_bytes
  unfolding cache_insert
  insert_sized key bytes meta t = ground arith

  insert_chunks_sized :
      (key : List ℕ) (segments : List (List ℕ)) (meta : BlockMeta) (n : ℕ) (t : MemoryTier L M)
      → (chunks_cache_insert L M key segments meta n t).capacity_bytes ≡ t.capacity_bytes
  unfolding chunks_cache_insert
  insert_chunks_sized key segments meta n t = ground arith

  pub insert-IsSound :
      (key bytes : List ℕ) (meta : BlockMeta) (t : MemoryTier L M)
      → IsOpen t
      → IsSound t
      → IsSound (cache_insert L M key bytes meta t)
  insert-IsSound key bytes meta t o h = record {
    sized = insert_sized key bytes meta t ∙ h.sized;
    account = elim (le_or_lt (length bytes) t.capacity_bytes) [
      | inl fits ↦
          (cache_insert_lem L M key t bytes meta (omega (arith, h.sized)) fits o.cache_open
            h.account).0
      | inr large ↦ rw (cache_insert_large L M key t bytes meta large) h.account
    ];
    recorded = elim (le_or_lt (length bytes) t.capacity_bytes) [
      | inl fits ↦
          let (_, _, p) =
            cache_insert_lem L M key t bytes meta (omega (arith, h.sized)) fits o.cache_open
              h.account in
          rw p (remove-AllSized key (M.contents t.chunks_cache) h.recorded)
      | inr large ↦ rw (cache_insert_large L M key t bytes meta large) h.recorded
    ];
  }

  pub insert_chunks-IsSound :
      (key : List ℕ) (segments : List (List ℕ)) (meta : BlockMeta) (t : MemoryTier L M)
      → IsOpen t
      → IsSound t
      → IsSound (chunks_cache_insert L M key segments meta (total_len segments) t)
  insert_chunks-IsSound key segments meta t o h = record {
    sized = insert_chunks_sized key segments meta (total_len segments) t ∙ h.sized;
    account = elim (le_or_lt (total_len segments) t.capacity_bytes) [
      | inl fits ↦
          (chunks_cache_insert_lem L M key t segments meta (total_len segments)
            (omega (arith, h.sized)) fits o.chunks_open h.account).0
      | inr large ↦
          rw (chunks_cache_insert_large L M key t segments meta (total_len segments) large)
            h.account
    ];
    recorded = elim (le_or_lt (total_len segments) t.capacity_bytes) [
      | inl fits ↦
          let (_, p, _) =
            chunks_cache_insert_lem L M key t segments meta (total_len segments)
              (omega (arith, h.sized)) fits o.chunks_open h.account in
          insert-AllSized segments p h.recorded
      | inr large ↦
          rw (chunks_cache_insert_large L M key t segments meta (total_len segments) large)
            h.recorded
    ];
  }

  pub asked-IsSound :
      (now : ℤ) (key : ObjectKey) (n : Node L M S)
      → IsSound n.tier
      → IsSound (asked L M S now key n)
  asked-IsSound now key n h =
      let p = L.get_touched (to_string_key key) n.tier.cache in
      let q =
        ap (total data_len) p
        ∙ total-touch data_len (to_string_key key) (L.contents n.tier.cache) in
      record {
        sized = h.sized;
        account = record {
          counted = omega (arith, h.account.counted);
          first_within = omega (arith, h.account.first_within);
          second_within = h.account.second_within;
          exclusive = λ k. elim (h.account.exclusive k) [
            | inl e ↦ inl (rw p (find-touch-none k (to_string_key key) _ e))
            | inr e ↦ inr e
          ];
        };
        recorded = h.recorded;
      }

  pub asked_chunks-IsSound :
      (now : ℤ) (key : ObjectKey) (n : Node L M S)
      → IsSound n.tier
      → IsSound (asked_chunks L M S now key n)
  asked_chunks-IsSound now key n h =
      let p = M.get_touched (to_string_key key) n.tier.chunks_cache in
      let q =
        ap (total chunks_len) p
        ∙ total-touch chunks_len (to_string_key key) (M.contents n.tier.chunks_cache) in
      record {
        sized = h.sized;
        account = record {
          counted = omega (arith, h.account.counted);
          first_within = h.account.first_within;
          second_within = omega (arith, h.account.second_within);
          exclusive = λ k. elim (h.account.exclusive k) [
            | inl e ↦ inl e
            | inr e ↦ inr (rw p (find-touch-none k (to_string_key key) _ e))
          ];
        };
        recorded = rw p (touch-AllSized (to_string_key key) _ h.recorded);
      }

  pub asked-IsOpen :
      (now : ℤ) (key : ObjectKey) (n : Node L M S) → IsOpen n.tier → IsOpen (asked L M S now key n)
  asked-IsOpen now key n o = record {
    cache_open = omega (
      arith,
      o.cache_open,
      ap length (L.get_touched (to_string_key key) n.tier.cache),
      length-touch (to_string_key key) (L.contents n.tier.cache),
    );
    chunks_open = o.chunks_open;
  }

  pub asked_chunks-IsOpen :
      (now : ℤ) (key : ObjectKey) (n : Node L M S)
      → IsOpen n.tier
      → IsOpen (asked_chunks L M S now key n)
  asked_chunks-IsOpen now key n o = record {
    cache_open = o.cache_open;
    chunks_open = omega (
      arith,
      o.chunks_open,
      ap length (M.get_touched (to_string_key key) n.tier.chunks_cache),
      length-touch (to_string_key key) (M.contents n.tier.chunks_cache),
    );
  }
