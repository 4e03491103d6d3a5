-- ===== src/MemoryTier/ListCache.antt =====
-- A cache on a list, which meets the laws of MemoryTier/Lru.
use context_store.Prelude.{
  ℕ, ◌<◌, ◌≤◌, Option, none, some, List, [], ◌∷◌, ◌++◌, length, All, ltb, le→ltb, lt→ltb, eq_bytes,
  ◌==◌, if◌then◌else◌, ◌≡◌, refl, ap, sym, ◌∙◌, arith, inl, inr, Bool-cases, Option-cases,
}
use context_store.MemoryTier.Lru.{LruCache, Absent, Distinct, find, remove, touch}
use context_store.MemoryTier.Entries.{All-remove, remove-Absent, remove_missing}

some-none : {A : Type 0} {a : A} → some a ≡ none → ⊥
some-none h = cc

module _ {V : Type 0} where
  Absent-find : (k : List ℕ) (es : List (List ℕ × V)) → find k es ≡ none → Absent k es
  unfolding find
  Absent-find k [] h = tt
  Absent-find k ((j, e) ∷ es) h = elim (Bool-cases (eq_bytes j k)) [
    | inl same ↦ absurd (ground arith)
    | inr other ↦ (other, Absent-find k es (rw (other, find) at h))
  ]

  pub remove-Distinct : (k : List ℕ) (es : List (List ℕ × V)) → Distinct es → Distinct (remove k es)
  unfolding remove
  remove-Distinct k [] h = tt
  remove-Distinct k ((j, e) ∷ es) h = elim (Bool-cases (eq_bytes j k)) [
    | inl same ↦ rw (same, remove) h.1
    | inr other ↦ rw (other, remove) (All-remove _ k es h.0, remove-Distinct k es h.1)
  ]

  pub touch-Distinct : (k : List ℕ) (es : List (List ℕ × V)) → Distinct es → Distinct (touch k es)
  unfolding touch
  touch-Distinct k es h = elim (Option-cases (find k es)) [
    | inl e ↦ rw (e, touch) h
    | inr (v, e) ↦ rw (e, touch) (remove-Absent k es h, remove-Distinct k es h)
  ]

  -- All but the last entry.
  unfoldable pub init : List (List ℕ × V) → List (List ℕ × V)
  init [] = []
  init (x ∷ []) = []
  init (x ∷ y ∷ es) = x ∷ init (y ∷ es)

  unfoldable pub last : List (List ℕ × V) → Option (List ℕ × V)
  last [] = none
  last (x ∷ []) = some x
  last (x ∷ y ∷ es) = last (y ∷ es)

  All-init_self : (P : List ℕ × V → Type 0) (es : List (List ℕ × V)) → All P es → All P (init es)
  unfolding init
  All-init_self P [] h = tt
  All-init_self P (x ∷ []) h = tt
  All-init_self P (x ∷ y ∷ es) h = (h.0, All-init_self P (y ∷ es) h.1)

  pub init-Distinct : (es : List (List ℕ × V)) → Distinct es → Distinct (init es)
  unfolding init
  init-Distinct [] h = tt
  init-Distinct (x ∷ []) h = tt
  init-Distinct (x ∷ y ∷ es) h = (All-init_self _ (y ∷ es) h.0, init-Distinct (y ∷ es) h.1)

  init-append : (es : List (List ℕ × V)) (x : List ℕ × V) → init (es ++ x ∷ []) ≡ es
  unfolding init
  init-append [] x = refl
  init-append (y ∷ []) x = refl
  init-append (y ∷ z ∷ es) x = ap (λ r. y ∷ r) (init-append (z ∷ es) x)

  init-last : (es : List (List ℕ × V)) (x : List ℕ × V) → last es ≡ some x → es ≡ init es ++ x ∷ []
  unfolding init last
  init-last [] x h = absurd (ground arith)
  init-last (y ∷ []) x h = ground arith
  init-last (y ∷ z ∷ es) x h = ap (λ r. y ∷ r) (init-last (z ∷ es) x h)

  last-none : (es : List (List ℕ × V)) → last es ≡ none → es ≡ []
  unfolding last
  last-none [] h = refl
  last-none (y ∷ []) h = absurd (ground arith)
  last-none (y ∷ z ∷ es) h = absurd (ground (arith, last-none (z ∷ es)))

-- The entries, of which no two have one key.
pub record Entries (V : Type 0) : Type 0 where
  pub entries : List (List ℕ × V)
  pub apart : Distinct entries

module _ {V : Type 0} (cap : ℕ) where
  abbrev pub popped_last : Entries V → Option (List ℕ × V) → Option (V × Entries V)
  popped_last c none = none
  popped_last c (some (k, e)) =
      some (e, record { entries = init c.entries; apart = init-Distinct c.entries c.apart })

  -- What stays behind a new front.
  abbrev pub behind : List ℕ → Option V → List (List ℕ × V) → List (List ℕ × V)
  behind k (some e) es = remove k es
  behind k none es = if ltb (length es) cap then es else init es

  pub behind-Absent :
      (k : List ℕ) (es : List (List ℕ × V)) → Distinct es → Absent k (behind k (find k es) es)
  behind-Absent k es h = elim (Option-cases (find k es)) [
    | inr (v, e) ↦ rw e (remove-Absent k es h)
    | inl e ↦ rw e (elim (Bool-cases (ltb (length es) cap)) [
      | inl room ↦ rw room (Absent-find k es e)
      | inr full ↦ rw full (All-init_self _ es (Absent-find k es e))
    ])
  ]

  pub behind-Distinct :
      (k : List ℕ) (o : Option V) (es : List (List ℕ × V)) → Distinct es → Distinct (behind k o es)
  behind-Distinct k (some e) es h = remove-Distinct k es h
  behind-Distinct k none es h = elim (Bool-cases (ltb (length es) cap)) [
    | inl room ↦ rw room h
    | inr full ↦ rw full (init-Distinct es h)
  ]

  pub pop_last-none : (c : Entries V) → popped_last c (last c.entries) ≡ none → c.entries ≡ []
  pop_last-none c h = elim (Option-cases (last c.entries)) [
    | inl e ↦ last-none c.entries e
    | inr (x, e) ↦ absurd (some-none (rw e at h))
  ]

  popped_parts :
      {a b : V} {c d : Entries V}
      → ◌≡◌ {A = Option (V × Entries V)} (some (a, c)) (some (b, d))
      → (a ≡ b) × (c.entries ≡ d.entries)
  popped_parts h = ground (arith, h)

  pub pop_last-some :
      (e : V) (c c' : Entries V)
      → popped_last c (last c.entries) ≡ some (e, c')
      → (k : List ℕ) × (c.entries ≡ c'.entries ++ (k, e) ∷ [])
  pop_last-some e c c' h = elim (Option-cases (last c.entries)) [
    | inl f ↦ absurd (some-none (sym (rw f at h)))
    | inr ((k, v), f) ↦
        let p = popped_parts (rw f at h) in
        (k, init-last c.entries (k, v) f ∙ (λ i. p.1 i ++ (k, p.0 i) ∷ []))
  ]

  pub put_behind :
      (k : List ℕ) (es : List (List ℕ × V))
      → length es < cap
      → behind k (find k es) es ≡ remove k es
  put_behind k es h = elim (Option-cases (find k es)) [
    | inl e ↦ rw e (rw (lt→ltb _ _ h) (sym (remove_missing k es (Absent-find k es e))))
    | inr (v, e) ↦ rw e
  ]

  pub put_last :
      (k : List ℕ) (x : List ℕ × V) (es rest : List (List ℕ × V))
      → cap ≤ length es
      → find k es ≡ none
      → es ≡ rest ++ x ∷ []
      → behind k (find k es) es ≡ rest
  put_last k x es rest h e p = rw e (rw (le→ltb _ _ h) (ap init p ∙ init-append rest x))

unfoldable pub list_cache : (V : Type 0) → ℕ → LruCache V
unfolding init last find remove touch
list_cache V cap = record {
  Cache = Entries V;
  contents = λ c. c.entries;
  cap = cap;
  empty = record { entries = []; apart = tt };
  len = λ c. length c.entries;
  is_empty = λ c. length c.entries == 0;
  get = λ k c. (
    find k c.entries,
    record { entries = touch k c.entries; apart = touch-Distinct k c.entries c.apart },
  );
  pop = λ k c. (
    find k c.entries,
    record { entries = remove k c.entries; apart = remove-Distinct k c.entries c.apart },
  );
  pop_lru = λ c. popped_last cap c (last c.entries);
  put = λ k e c. (
    find k c.entries,
    record {
      entries = (k, e) ∷ behind cap k (find k c.entries) c.entries;
      apart = (
        behind-Absent cap k c.entries c.apart,
        behind-Distinct cap k (find k c.entries) c.entries c.apart,
      );
    },
  );
  distinct = λ c. c.apart;
  empty_lem = refl;
  len_lem = λ c. refl;
  is_empty_lem = λ c. refl;
  get_found = λ k c. refl;
  get_touched = λ k c. refl;
  pop_found = λ k c. refl;
  pop_removed = λ k c. refl;
  pop_lru_none = pop_last-none cap;
  pop_lru_some = pop_last-some cap;
  put_found = λ k e c. refl;
  put_room = λ k e c h. ap (λ es. (k, e) ∷ es) (put_behind cap k c.entries h);
  put_full =
      λ k j e f c es h n p. ap (λ es. (k, e) ∷ es) (put_last cap k (j, f) c.entries es h n p);
}
