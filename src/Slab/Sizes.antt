-- ===== src/Slab/Sizes.antt =====
-- `by_size` as a set of pairs, in ascending order.
use context_store.Prelude.{
  ℕ, ◌<◌, ◌≤◌, true, ◌&&◌, ◌||◌, not, none, some, List, [], ◌∷◌, ◌==◌, ◌≡◌, ◌⊎◌, arith,
}
use context_store.Slab.Blocks.{set_insert, set_remove, first_fit}
use context_store.Slab.Gaps.{has}

abbrev pub Below : ℕ → ℕ → ℕ → ℕ → Type 0
Below a b c d = (a < c) ⊎ ((a ≡ c) × (b < d))

-- `(a, b)` is below every pair of the list.
abbrev pub Before : ℕ → ℕ → List (ℕ × ℕ) → Type 0
Before a b [] = Unit {0}
Before a b ((c, d) ∷ s) = Below a b c d × Before a b s

abbrev pub Ascending : List (ℕ × ℕ) → Type 0
Ascending [] = Unit {0}
Ascending ((a, b) ∷ s) = Before a b s × Ascending s

Before-trans : (a b c d : ℕ) (s : List (ℕ × ℕ)) → Below a b c d → Before c d s → Before a b s
Before-trans a b c d [] h k = tt
Before-trans a b c d ((e, f) ∷ s) h k = (ground arith, Before-trans a b c d s h k.1)

Before-insert :
    (a b c d : ℕ) (s : List (ℕ × ℕ)) → Below a b c d → Before a b s → Before a b (set_insert c d s)
unfolding set_insert
Before-insert a b c d [] h k = (h, tt)
Before-insert a b c d ((e, f) ∷ s) h k = ground (arith, Before-insert a b c d s h k.1)

pub Ascending-insert : (c d : ℕ) (s : List (ℕ × ℕ)) → Ascending s → Ascending (set_insert c d s)
unfolding set_insert
Ascending-insert c d [] h = (tt, tt)
Ascending-insert c d ((a, b) ∷ s) h =
    ground (arith, Ascending-insert c d s h.1, Before-insert a b c d s, Before-trans c d a b s)

Before-remove : (a b c d : ℕ) (s : List (ℕ × ℕ)) → Before a b s → Before a b (set_remove c d s)
unfolding set_remove
Before-remove a b c d [] k = tt
Before-remove a b c d ((e, f) ∷ s) k = ground (arith, Before-remove a b c d s k.1)

pub Ascending-remove : (c d : ℕ) (s : List (ℕ × ℕ)) → Ascending s → Ascending (set_remove c d s)
unfolding set_remove
Ascending-remove c d [] h = tt
Ascending-remove c d ((a, b) ∷ s) h =
    ground (arith, Ascending-remove c d s h.1, Before-remove a b c d s h.0)

Below-of_has : (a b c d : ℕ) (s : List (ℕ × ℕ)) → Before a b s → has c d s ≡ true → Below a b c d
Below-of_has a b c d [] k h = absurd (ground arith)
Below-of_has a b c d ((e, f) ∷ s) k h = ground (arith, Below-of_has a b c d s k.1)

pub has-set_insert :
    (p q c d : ℕ) (s : List (ℕ × ℕ))
    → has p q (set_insert c d s) ≡ ((c == p && d == q) || has p q s)
unfolding set_insert
has-set_insert p q c d [] = ground arith
has-set_insert p q c d ((a, b) ∷ s) = ground (arith, has-set_insert p q c d s)

pub has-set_remove :
    (p q c d : ℕ) (s : List (ℕ × ℕ))
    → Ascending s
    → has p q (set_remove c d s) ≡ (has p q s && not (c == p && d == q))
unfolding set_remove
has-set_remove p q c d [] h = ground arith
has-set_remove p q c d ((a, b) ∷ s) h =
    ground (arith, has-set_remove p q c d s h.1, Below-of_has a b p q s h.0)

-- What `first_fit` finds is in the set, is large enough, and nothing large enough is below it.
pub first_fit-some :
    (size l o p q : ℕ) (s : List (ℕ × ℕ))
    → Ascending s
    → first_fit size s ≡ some (l, o)
    → (has l o s ≡ true)
      × (size ≤ l)
      × (has p q s ≡ true → size ≤ p → (l < p) ⊎ ((l ≡ p) × (o ≤ q)))
unfolding first_fit
first_fit-some size l o p q [] h e = absurd (ground arith)
first_fit-some size l o p q ((a, b) ∷ s) h e =
    ground (arith, first_fit-some size l o p q s h.1, Below-of_has a b p q s h.0)

pub first_fit-none :
    (size p q : ℕ) (s : List (ℕ × ℕ)) → first_fit size s ≡ none → has p q s ≡ true → p < size
unfolding first_fit
first_fit-none size p q [] e h = absurd (ground arith)
first_fit-none size p q ((a, b) ∷ s) e h = ground (arith, first_fit-none size p q s)
