-- ===== src/MemoryTier/Entries.antt =====
-- Lists of entries: their bytes, and what taking a key out does.
use context_store.Prelude.{
  ℕ, ◌+◌, ◌≤◌, false, Option, none, some, List, [], ◌∷◌, ◌++◌, length, Option-cases, eq_bytes_refl,
  ap, All, eq_bytes, eq_bytes→eq, eq_bytes→ne, ne→eq_bytes, ◌≡◌, refl, sym, subst, arith, inl, inr,
  Bool-cases,
}
use context_store.MemoryTier.Lru.{Absent, Distinct, find, remove, touch}

-- The bytes of the entries of a cache.
abbrev pub total : {V : Type 0} → (V → ℕ) → List (List ℕ × V) → ℕ
total size_of [] = 0
total size_of (e ∷ es) = size_of e.1 + total size_of es

abbrev pub size_found : {V : Type 0} → (V → ℕ) → Option V → ℕ
size_found size_of none = 0
size_found size_of (some e) = size_of e

eq_bytes_sym : (a b : List ℕ) → eq_bytes a b ≡ false → eq_bytes b a ≡ false
eq_bytes_sym a b h = ne→eq_bytes b a (λ e. eq_bytes→ne a b h (sym e))

pub All-init :
    {V : Type 0} (P : List ℕ × V → Type 0) (xs ys : List (List ℕ × V)) → All P (xs ++ ys) → All P xs
All-init P [] ys h = tt
All-init P (x ∷ xs) ys h = (h.0, All-init P xs ys h.1)

module _ {V : Type 0} where
  pub total-append :
      (size_of : V → ℕ) (xs ys : List (List ℕ × V))
      → total size_of (xs ++ ys) ≡ total size_of xs + total size_of ys
  total-append size_of [] ys = omega arith
  total-append size_of (x ∷ xs) ys = omega (arith, total-append size_of xs ys)

  pub total-remove :
      (size_of : V → ℕ) (k : List ℕ) (es : List (List ℕ × V))
      → total size_of (remove k es) + size_found size_of (find k es) ≡ total size_of es
  unfolding find remove
  total-remove size_of k [] = refl
  total-remove size_of k ((j, e) ∷ es) = ground (arith, total-remove size_of k es)

  pub length-remove : (k : List ℕ) (es : List (List ℕ × V)) → length (remove k es) ≤ length es
  unfolding remove
  length-remove k [] = omega arith
  length-remove k ((j, e) ∷ es) = ground (arith, length-remove k es)

  pub All-remove :
      (P : List ℕ × V → Type 0) (k : List ℕ) (es : List (List ℕ × V))
      → All P es
      → All P (remove k es)
  unfolding remove
  All-remove P k [] h = tt
  All-remove P k ((j, e) ∷ es) h = elim (Bool-cases (eq_bytes j k)) [
    | inl same ↦ rw (same, remove) h.1
    | inr other ↦ rw (other, remove) (h.0, All-remove P k es h.1)
  ]

  pub remove-Absent : (k : List ℕ) (es : List (List ℕ × V)) → Distinct es → Absent k (remove k es)
  unfolding remove
  remove-Absent k [] h = tt
  remove-Absent k ((j, e) ∷ es) h = elim (Bool-cases (eq_bytes j k)) [
    | inl same ↦ rw (same, remove) (subst (λ l. Absent l es) (eq_bytes→eq j k same) h.0)
    | inr other ↦ rw (other, remove) (other, remove-Absent k es h.1)
  ]

  pub find-Absent : (k : List ℕ) (es : List (List ℕ × V)) → Absent k es → find k es ≡ none
  unfolding find
  find-Absent k [] h = refl
  find-Absent k ((j, e) ∷ es) h = rw (h.0, find) (find-Absent k es h.1)

  pub remove_missing : (k : List ℕ) (es : List (List ℕ × V)) → Absent k es → remove k es ≡ es
  unfolding remove
  remove_missing k [] h = refl
  remove_missing k ((j, e) ∷ es) h = rw (h.0, remove) (λ i. (j, e) ∷ remove_missing k es h.1 i)

  pub find-init_none :
      (k : List ℕ) (xs ys : List (List ℕ × V)) → find k (xs ++ ys) ≡ none → find k xs ≡ none
  unfolding find
  find-init_none k [] ys h = refl
  find-init_none k ((j, e) ∷ xs) ys h = ground (arith, find-init_none k xs ys)

  pub find-remove-none :
      (k j : List ℕ) (es : List (List ℕ × V)) → find k es ≡ none → find k (remove j es) ≡ none
  unfolding find remove
  find-remove-none k j [] h = refl
  find-remove-none k j ((i, e) ∷ es) h = ground (arith, find-remove-none k j es)

  find-remove_self :
      (k : List ℕ) (es : List (List ℕ × V)) → Distinct es → find k (remove k es) ≡ none
  find-remove_self k es h = find-Absent k (remove k es) (remove-Absent k es h)

  pub find-touch-none :
      (k j : List ℕ) (es : List (List ℕ × V)) → find k es ≡ none → find k (touch j es) ≡ none
  unfolding touch
  find-touch-none k j es h = elim (Bool-cases (eq_bytes j k)) [
    | inl same ↦
        let e : find j es ≡ none = subst (λ i. find i es ≡ none) (sym (eq_bytes→eq j k same)) h in
        rw (e, touch) h
    | inr other ↦ elim (Option-cases (find j es)) [
      | inl e ↦ rw (e, touch) h
      | inr (v, e) ↦ rw (e, touch) (unfold find in rw (other, find) (find-remove-none k j es h))
    ]
  ]

  pub total-touch :
      (size_of : V → ℕ) (k : List ℕ) (es : List (List ℕ × V))
      → total size_of (touch k es) ≡ total size_of es
  unfolding touch
  total-touch size_of k es = elim (Option-cases (find k es)) [
    | inl e ↦ rw (e, touch)
    | inr (v, e) ↦
        rw (e, touch) (omega (arith, total-remove size_of k es, ap (size_found size_of) e))
  ]

  find-touch_self : (k : List ℕ) (es : List (List ℕ × V)) → find k (touch k es) ≡ find k es
  unfolding touch find
  find-touch_self k es = elim (Option-cases (find k es)) [
    | inl e ↦ rw (e, touch) e
    | inr (v, e) ↦ rw (e, touch) (ground (arith, eq_bytes_refl k))
  ]

  length-remove_found :
      (k : List ℕ) (v : V) (es : List (List ℕ × V))
      → find k es ≡ some v
      → length (remove k es) + 1 ≡ length es
  unfolding find remove
  length-remove_found k v [] h = absurd (ground arith)
  length-remove_found k v ((j, e) ∷ es) h = ground (arith, length-remove_found k v es)

  pub length-touch : (k : List ℕ) (es : List (List ℕ × V)) → length (touch k es) ≡ length es
  unfolding touch
  length-touch k es = elim (Option-cases (find k es)) [
    | inl e ↦ rw (e, touch)
    | inr (v, e) ↦ rw (e, touch) (omega (arith, length-remove_found k v es e))
  ]
