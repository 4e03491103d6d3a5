-- ===== src/Slab/Blocks.antt =====
-- The two B-trees of the free list, as lists in the order of their keys: `by_offset`, a map from
-- offset to length, and `by_size`, a set of (length, offset).
use context_store.Prelude.{
  ℕ, Bool, ◌&&◌, ◌||◌, Option, none, some, List, [], ◌∷◌, ltb, ◌==◌, if◌then◌else◌,
}

-- `BTreeMap::get`
unfoldable pub map_get : ℕ → List (ℕ × ℕ) → Option ℕ
map_get k [] = none
map_get k ((o, l) ∷ m) = if o == k then some l else map_get k m

-- `BTreeMap::insert`
unfoldable pub map_insert : ℕ → ℕ → List (ℕ × ℕ) → List (ℕ × ℕ)
map_insert k v [] = (k, v) ∷ []
map_insert k v ((o, l) ∷ m) =
    if ltb k o
    then (k, v) ∷ (o, l) ∷ m
    else if k == o
    then (k, v) ∷ m
    else (o, l) ∷ map_insert k v m

-- `BTreeMap::remove`
unfoldable pub map_remove : ℕ → List (ℕ × ℕ) → List (ℕ × ℕ)
map_remove k [] = []
map_remove k ((o, l) ∷ m) = if o == k then m else (o, l) ∷ map_remove k m

-- `BTreeMap::range(..k).next_back()`: the last entry with a key below `k`
unfoldable pub last_below : ℕ → List (ℕ × ℕ) → Option (ℕ × ℕ)
last_below k [] = none
last_below k ((o, l) ∷ m) =
    let later = last_below k m in
    if ltb o k then (elim later [ none ↦ some (o, l) | some e ↦ some e ]) else none

-- The order of pairs.
unfoldable pub pair_lt : ℕ → ℕ → ℕ → ℕ → Bool
pair_lt a b c d = ltb a c || (a == c && ltb b d)

-- `BTreeSet::insert`
unfoldable pub set_insert : ℕ → ℕ → List (ℕ × ℕ) → List (ℕ × ℕ)
unfolding pair_lt
set_insert a b [] = (a, b) ∷ []
set_insert a b ((c, d) ∷ s) =
    if pair_lt a b c d
    then (a, b) ∷ (c, d) ∷ s
    else if a == c && b == d
    then (c, d) ∷ s
    else (c, d) ∷ set_insert a b s

-- `BTreeSet::remove`
unfoldable pub set_remove : ℕ → ℕ → List (ℕ × ℕ) → List (ℕ × ℕ)
set_remove a b [] = []
set_remove a b ((c, d) ∷ s) = if a == c && b == d then s else (c, d) ∷ set_remove a b s

-- `BTreeSet::range((size, 0)..).next()`: the first pair that is not below `(size, 0)`
unfoldable pub first_fit : ℕ → List (ℕ × ℕ) → Option (ℕ × ℕ)
unfolding pair_lt
first_fit size [] = none
first_fit size ((l, o) ∷ s) = if pair_lt l o size 0 then first_fit size s else some (l, o)
