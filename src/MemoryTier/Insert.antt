-- ===== src/MemoryTier/Insert.antt =====
-- An insertion into one of the caches, after the loop that evicts.
use context_store.Prelude.{
  ℕ, ◌+◌, ◌^◌, ◌<◌, ◌≤◌, List, ◌∷◌, length, length-append, ◌≡◌, ap, ◌∙◌, arith, inl, inr,
}
use context_store.MemoryTier.{fetch_add, released, Room, make_room, insert_entry}
use context_store.MemoryTier.Lru.{LruCache}
use context_store.MemoryTier.Entries.{total, find-Absent, remove_missing}
use context_store.MemoryTier.Evict.{IsTrimmed, IsRoom, make_room_lem}

-- What an insertion leaves in the cache and in the counter, `used` bytes of which are of the other
-- cache.
pub record IsInserted {V : Type 0} (L : LruCache V) (size_of : V → ℕ) (capacity other : ℕ)
    (key : List ℕ) (entry : V) (before : List (List ℕ × V)) (r : Room L size_of) : Type 0 where
  pub rest : List (List ℕ × V)
  pub stored : L.contents r.lru ≡ (key, entry) ∷ rest
  pub trimmed : IsTrimmed size_of capacity (other + size_of entry) before rest
  pub counted : r.current_size ≡ total size_of (L.contents r.lru) + other
  pub within : total size_of (L.contents r.lru) ≤ capacity

trimmed_length :
    {V : Type 0} {size_of : V → ℕ} {capacity used : ℕ} {before after : List (List ℕ × V)}
    → IsTrimmed size_of capacity used before after
    → length after ≤ length before
trimmed_length {after = after} t = omega (arith, ap length t.split, length-append {0} after t.gone)

trimmed_within :
    {V : Type 0} {size_of : V → ℕ} {capacity : ℕ} {before after : List (List ℕ × V)}
    (other size : ℕ)
    → size ≤ capacity
    → IsTrimmed size_of capacity (other + size) before after
    → size + total size_of after ≤ capacity
trimmed_within {size_of = size_of} other size h t = elim t.enough [
  | inl fit ↦ omega arith
  | inr none_left ↦ omega (arith, ap (total size_of) none_left)
]

module _ {V : Type 0} (L : LruCache V) (size_of : V → ℕ) (capacity other : ℕ) (key : List ℕ)
    (entry : V) (small : capacity < 2 ^ 62) (fits : other ≤ capacity)
    (s : size_of entry ≤ capacity) where
  put_lem :
      (before : List (List ℕ × V)) (room : Room L size_of)
      → length (L.contents room.lru) < L.cap
      → IsRoom L size_of capacity (size_of entry) other key room
      → IsTrimmed size_of capacity (other + size_of entry) before (L.contents room.lru)
      → IsInserted L size_of capacity other key entry before (record {
        lru = (L.put key entry room.lru).1;
        current_size =
            fetch_add
              (released size_of (L.put key entry room.lru).0 room.current_size)
              (size_of entry);
        evictions = room.evictions;
      })
  unfolding fetch_add released
  put_lem before room below h t =
      let p : L.contents (L.put key entry room.lru).1 ≡ (key, entry) ∷ L.contents room.lru =
        L.put_room key entry room.lru below
        ∙ ap (λ es. (key, entry) ∷ es) (remove_missing key (L.contents room.lru) h.absent) in
      let w = trimmed_within other (size_of entry) s t in
      record {
        rest = L.contents room.lru;
        stored = p;
        trimmed = t;
        counted =
            rw (L.put_found key entry room.lru, find-Absent key (L.contents room.lru) h.absent)
              (omega (arith, h.counted, ap (total size_of) p));
        within = omega (arith, ap (total size_of) p);
      }

  -- An entry that fits the capacity is put in front of what the loop kept, and the counter is right
  -- again, if the cache holds fewer entries than its limit.
  pub insert_entry_lem :
      (r : Room L size_of)
      → length (L.contents r.lru) < L.cap
      → IsRoom L size_of capacity (size_of entry) other key r
      → IsInserted L size_of capacity other key entry
          (L.contents r.lru)
          (insert_entry L size_of capacity key entry r)
  unfolding insert_entry
  insert_entry_lem r below h =
      let (h', t) =
        make_room_lem L size_of capacity (size_of entry) other key small fits (L.len r.lru) r
          (omega (arith, L.len_lem r.lru)) h s in
      put_lem (L.contents r.lru) (make_room L size_of (L.len r.lru) capacity (size_of entry) r)
        (omega (arith, trimmed_length t)) h' t
