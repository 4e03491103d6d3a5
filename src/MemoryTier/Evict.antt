-- ===== src/MemoryTier/Evict.antt =====
-- The loop that evicts: which entries go, and that the account of the bytes stays right.
use context_store.Prelude.{
  ℕ, zero, suc, ◌+◌, ◌%◌, ◌^◌, ◌<◌, ◌≤◌, Bool, true, false, not, ◌&&◌, List, [], ◌∷◌, ◌++◌, length,
  length-append, ltb, ◌==◌, ◌≡◌, ◌≢◌, ◌⊎◌, refl, ap, sym, ◌∙◌, subst, arith, inl, inr, Bool-cases,
  Option-cases, append_assoc, append-nil,
}
use context_store.MemoryTier.{fetch_sub, fetch_add, Room, evict_one, no_room, make_room}
use context_store.MemoryTier.Lru.{LruCache, Absent}
use context_store.MemoryTier.Entries.{total, total-append, All-init}

-- `after` is `before` without its last entries, as few as leave `size` more bytes beside the others
-- within the capacity, or all.
pub record IsTrimmed {V : Type 0} (size_of : V → ℕ) (capacity used : ℕ)
    (before after : List (List ℕ × V)) : Type 0 where
  pub gone : List (List ℕ × V)
  pub split : before ≡ after ++ gone
  pub enough : (total size_of after + used ≤ capacity) ⊎ (after ≡ [])
  pub needed :
      (gone ≡ [])
      ⊎ ((e : List ℕ × V) × (rest : List (List ℕ × V)) × (gone ≡ e ∷ rest)
          × (capacity < total size_of after + size_of e.1 + used))

-- One more entry at the end went first.
trim_more :
    {V : Type 0} (size_of : V → ℕ) (capacity used : ℕ) (before between after : List (List ℕ × V))
    (e : List ℕ × V)
    → before ≡ between ++ e ∷ []
    → capacity < total size_of before + used
    → IsTrimmed size_of capacity used between after
    → IsTrimmed size_of capacity used before after
trim_more size_of capacity used before between after e p more h = record {
  gone = h.gone ++ e ∷ [];
  split = p ∙ ap (λ es. es ++ e ∷ []) h.split ∙ append_assoc after h.gone (e ∷ []);
  enough = h.enough;
  needed = elim h.needed [
    | inl none_gone ↦ inr (
      e,
      [],
      ap (λ g. g ++ e ∷ []) none_gone,
      omega (
        arith,
        ap (total size_of) (
            p
            ∙ ap (λ es. es ++ e ∷ [])
                (h.split ∙ ap (λ g. after ++ g) none_gone ∙ append-nil after)),
        total-append size_of after (e ∷ []),
      ),
    )
    | inr (d, rest, q, n) ↦ inr (d, rest ++ e ∷ [], ap (λ g. g ++ e ∷ []) q, n)
  ];
}

over :
    (capacity used size : ℕ) (b : Bool)
    → used + size < 2 ^ 64
    → (ltb capacity ((used + size) % 2 ^ 64) && not b) ≡ true
    → (b ≡ false) × (capacity < used + size)
over capacity used size b h n = ground arith

not_over :
    (capacity used size : ℕ) (b : Bool)
    → used + size < 2 ^ 64
    → (ltb capacity ((used + size) % 2 ^ 64) && not b) ≡ false
    → (used + size ≤ capacity) ⊎ (b ≡ true)
not_over capacity used size b h n = ground arith

no_entries : (n : ℕ) → n ≤ 0 → (n == 0) ≡ true
no_entries n h = ground arith

length-zero : {A : Type 0} (xs : List A) → (length xs == 0) ≡ true → xs ≡ []
length-zero [] h = refl
length-zero (x ∷ xs) h = absurd (ground arith)

module _ {V : Type 0} (L : LruCache V) (size_of : V → ℕ) (capacity size other : ℕ) where
  -- A cache within the capacity, and a counter that has it and `other` bytes of the other cache.
  pub record IsRoom (key : List ℕ) (r : Room L size_of) : Type 0 where
    pub counted : r.current_size ≡ total size_of (L.contents r.lru) + other
    pub within : total size_of (L.contents r.lru) ≤ capacity
    pub absent : Absent key (L.contents r.lru)

  module _ (key : List ℕ) (small : capacity < 2 ^ 62) (fits : other ≤ capacity) where
    -- One eviction.
    popped :
        (r : Room L size_of) (e : V) (lru : L.Cache) (k : List ℕ)
        → IsRoom key r
        → L.contents r.lru ≡ L.contents lru ++ (k, e) ∷ []
        → IsRoom key (record {
          lru = lru;
          current_size = fetch_sub r.current_size (size_of e);
          evictions = fetch_add r.evictions 1;
        })
    unfolding fetch_sub
    popped r e lru k h p =
        let t : total size_of (L.contents r.lru)
            ≡ total size_of (L.contents lru) + (size_of e + 0) =
          ap (total size_of) p ∙ total-append size_of (L.contents lru) ((k, e) ∷ []) in
        record {
          counted = omega (arith, h.counted, t, h.within);
          within = omega (arith, t, h.within);
          absent = All-init _ (L.contents lru) ((k, e) ∷ []) (subst (Absent key) p h.absent);
        }

    evict_one_lem :
        (r : Room L size_of)
        → IsRoom key r
        → L.contents r.lru ≢ []
        → IsRoom key (evict_one L size_of r)
          × ((k : List ℕ) × (e : V) × (L.contents r.lru
                ≡ L.contents (evict_one L size_of r).lru ++ (k, e) ∷ []))
    unfolding evict_one
    evict_one_lem r h full = elim (Option-cases (L.pop_lru r.lru)) [
      | inl e ↦ absurd (full (L.pop_lru_none r.lru e))
      | inr ((e, lru), p) ↦
          let (k, q) = L.pop_lru_some e r.lru lru p in
          rw (p, evict_one) (popped r e lru k h q, (k, e, q))
    ]

    no_room_lem :
        (r : Room L size_of)
        → IsRoom key r
        → size ≤ capacity
        → no_room L size_of capacity size r ≡ true
        → (L.contents r.lru ≢ []) × (capacity < total size_of (L.contents r.lru) + (other + size))
    no_room_lem r h s n =
        let (b, more) =
          over capacity r.current_size size (L.is_empty r.lru) (omega (arith, h.counted, h.within))
            n in
        (
          λ e. full_cache (L.contents r.lru) e (sym (L.is_empty_lem r.lru) ∙ b),
          omega (arith, h.counted),
        )
      where
        full_cache : (es : List (List ℕ × V)) → es ≡ [] → (length es == 0) ≡ false → ⊥
        full_cache es e f = ground arith

    room_lem :
        (r : Room L size_of)
        → IsRoom key r
        → size ≤ capacity
        → no_room L size_of capacity size r ≡ false
        → (total size_of (L.contents r.lru) + (other + size) ≤ capacity) ⊎ (L.contents r.lru ≡ [])
    room_lem r h s n =
        elim (not_over capacity r.current_size size (L.is_empty r.lru)
          (omega (arith, h.counted, h.within)) n) [
            | inl fit ↦ inl (omega (arith, h.counted))
            | inr e ↦ inr (length-zero (L.contents r.lru) (sym (L.is_empty_lem r.lru) ∙ e))
          ]

    kept :
        (r : Room L size_of)
        → (total size_of (L.contents r.lru) + (other + size) ≤ capacity) ⊎ (L.contents r.lru ≡ [])
        → IsTrimmed size_of capacity (other + size) (L.contents r.lru) (L.contents r.lru)
    kept r enough = record {
      gone = [];
      split = sym (append-nil _);
      enough = enough;
      needed = inl refl;
    }

    -- The loop, with as much fuel as there are entries.
    pub make_room_lem :
        (fuel : ℕ) (r : Room L size_of)
        → length (L.contents r.lru) ≤ fuel
        → IsRoom key r
        → size ≤ capacity
        → IsRoom key (make_room L size_of fuel capacity size r)
          × IsTrimmed size_of capacity
              (other + size)
              (L.contents r.lru)
              (L.contents (make_room L size_of fuel capacity size r).lru)
    unfolding make_room
    make_room_lem zero r f h s = (
      h,
      kept r (inr (length-zero (L.contents r.lru) (no_entries (length (L.contents r.lru)) f))),
    )
    make_room_lem (suc fuel) r f h s = elim (Bool-cases (no_room L size_of capacity size r)) [
      | inr e ↦ rw (e, make_room) (h, kept r (room_lem r h s e))
      | inl e ↦
          rw (e, make_room)
            (let (full, more) = no_room_lem r h s e in
              let (h', (k, v, p)) = evict_one_lem r h full in
              let (h'', trimmed) =
                make_room_lem fuel (evict_one L size_of r)
                  (omega (
                    arith,
                    f,
                    ap length p,
                    length-append {0} (L.contents (evict_one L size_of r).lru) ((k, v) ∷ []),
                  ))
                  h' s in
              (h'', trim_more size_of capacity (other + size) _ _ _ (k, v) p more trimmed))
    ]
