-- ===== src/MemoryTier/Lru.antt =====
-- What the memory tier uses of the crate `lru`, as its documentation has it. A cache shows its
-- entries from the most to the least recently used, and each operation is what a list does. No key
-- stands twice, and there are at most `cap` entries.
use context_store.Prelude.{
  ℕ, ◌<◌, ◌≤◌, Bool, false, Option, none, some, List, [], ◌∷◌, ◌++◌, length, All, eq_bytes, ◌==◌,
  if◌then◌else◌, ◌≡◌,
}

abbrev pub Absent : {V : Type 0} → List ℕ → List (List ℕ × V) → Type 0
Absent k es = All (λ e. eq_bytes e.0 k ≡ false) es

abbrev pub Distinct : {V : Type 0} → List (List ℕ × V) → Type 0
Distinct [] = Unit
Distinct (e ∷ es) = Absent e.0 es × Distinct es

-- The entry of a key.
unfoldable pub find : {V : Type 0} → List ℕ → List (List ℕ × V) → Option V
find k [] = none
find k ((j, e) ∷ es) = if eq_bytes j k then some e else find k es

unfoldable pub remove : {V : Type 0} → List ℕ → List (List ℕ × V) → List (List ℕ × V)
remove k [] = []
remove k ((j, e) ∷ es) = if eq_bytes j k then es else (j, e) ∷ remove k es

-- A key that is read moves to the front.
unfoldable pub touch : {V : Type 0} → List ℕ → List (List ℕ × V) → List (List ℕ × V)
unfolding find remove
touch k es = elim (find k es) [ none ↦ es | some e ↦ (k, e) ∷ remove k es ]

pub record LruCache (V : Type 0) : Type 1 where
  pub Cache : Type 0
  pub contents : Cache → List (List ℕ × V)
  pub cap : ℕ
  pub empty : Cache
  pub len : Cache → ℕ
  pub is_empty : Cache → Bool
  pub get : List ℕ → Cache → Option V × Cache
  pub pop : List ℕ → Cache → Option V × Cache
  pub pop_lru : Cache → Option (V × Cache)
  pub put : List ℕ → V → Cache → Option V × Cache
  pub distinct : (c : Cache) → Distinct (contents c)
  pub empty_lem : contents empty ≡ []
  pub len_lem : (c : Cache) → len c ≡ length (contents c)
  pub is_empty_lem : (c : Cache) → is_empty c ≡ (length (contents c) == 0)
  pub get_found : (k : List ℕ) (c : Cache) → (get k c).0 ≡ find k (contents c)
  pub get_touched : (k : List ℕ) (c : Cache) → contents (get k c).1 ≡ touch k (contents c)
  pub pop_found : (k : List ℕ) (c : Cache) → (pop k c).0 ≡ find k (contents c)
  pub pop_removed : (k : List ℕ) (c : Cache) → contents (pop k c).1 ≡ remove k (contents c)
  pub pop_lru_none : (c : Cache) → pop_lru c ≡ none → contents c ≡ []
  -- The entry that was not used for the longest time goes.
  pub pop_lru_some :
      (e : V) (c c' : Cache)
      → pop_lru c ≡ some (e, c')
      → (k : List ℕ) × (contents c ≡ contents c' ++ (k, e) ∷ [])
  pub put_found : (k : List ℕ) (e : V) (c : Cache) → (put k e c).0 ≡ find k (contents c)
  pub put_room :
      (k : List ℕ) (e : V) (c : Cache)
      → length (contents c) < cap
      → contents (put k e c).1 ≡ (k, e) ∷ remove k (contents c)
  -- In a full cache a new key takes the place of the entry that was not used for the longest time,
  -- which is not returned.
  pub put_full :
      (k j : List ℕ) (e f : V) (c : Cache) (es : List (List ℕ × V))
      → cap ≤ length (contents c)
      → find k (contents c) ≡ none
      → contents c ≡ es ++ (j, f) ∷ []
      → contents (put k e c).1 ≡ (k, e) ∷ es
