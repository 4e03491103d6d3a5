-- ===== src/Slab/Gaps.antt =====
-- The shape of `by_offset`: blocks in order, none empty, with a gap between any two.
use context_store.Prelude.{
  ℕ, suc, ◌+◌, ◌<◌, ◌≤◌, Bool, true, false, ◌&&◌, ◌||◌, List, [], ◌∷◌, ltb, leb, ◌==◌, ◌≡◌, ◌⊎◌,
  inr, arith,
}
use context_store.Slab.Blocks.{map_insert, map_remove}

-- The blocks lie between `lo` and `total`, and each ends before the next begins.
abbrev pub Gapped : ℕ → ℕ → List (ℕ × ℕ) → Type 0
Gapped lo total [] = Unit {0}
Gapped lo total ((o, l) ∷ m) = (lo ≤ o) × (0 < l) × (o + l ≤ total) × Gapped (suc (o + l)) total m

-- Each block ends before `a` or begins after `b`.
abbrev pub Sep : ℕ → ℕ → List (ℕ × ℕ) → Type 0
Sep a b [] = Unit {0}
Sep a b ((o, l) ∷ m) = ((o + l < a) ⊎ (b < o)) × Sep a b m

-- The pair is one of the list.
abbrev pub has : ℕ → ℕ → List (ℕ × ℕ) → Bool
has a b [] = false
has a b ((c, d) ∷ m) = (c == a && d == b) || has a b m

-- The byte `x` lies in the `l` bytes from `o` on.
abbrev pub within : ℕ → ℕ → ℕ → Bool
within o l x = leb o x && ltb x (o + l)

-- The byte lies in one of the blocks.
abbrev pub covered : ℕ → List (ℕ × ℕ) → Bool
covered x [] = false
covered x ((o, l) ∷ m) = within o l x || covered x m

abbrev pub total_len : List (ℕ × ℕ) → ℕ
total_len [] = 0
total_len ((o, l) ∷ m) = l + total_len m

Gapped-weaken : (lo' lo t : ℕ) (m : List (ℕ × ℕ)) → lo' ≤ lo → Gapped lo t m → Gapped lo' t m
Gapped-weaken lo' lo t [] h g = tt
Gapped-weaken lo' lo t ((o, l) ∷ m) h g = (omega arith, g.1, g.2, g.3)

pub Sep-before : (a b lo t : ℕ) (m : List (ℕ × ℕ)) → b < lo → Gapped lo t m → Sep a b m
Sep-before a b lo t [] h g = tt
Sep-before a b lo t ((o, l) ∷ m) h g =
    (inr (omega arith), Sep-before a b (suc (o + l)) t m (omega arith) g.3)

pub Sep-widen : (a b a' b' : ℕ) (m : List (ℕ × ℕ)) → a ≤ a' → b' ≤ b → Sep a b m → Sep a' b' m
Sep-widen a b a' b' [] h k s = tt
Sep-widen a b a' b' ((o, l) ∷ m) h k s = (ground arith, Sep-widen a b a' b' m h k s.1)

Sep-remove : (a b k : ℕ) (m : List (ℕ × ℕ)) → Sep a b m → Sep a b (map_remove k m)
unfolding map_remove
Sep-remove a b k [] s = tt
Sep-remove a b k ((o, l) ∷ m) s = ground (arith, Sep-remove a b k m s.1)

pub Gapped-remove : (lo t k : ℕ) (m : List (ℕ × ℕ)) → Gapped lo t m → Gapped lo t (map_remove k m)
unfolding map_remove
Gapped-remove lo t k [] g = tt
Gapped-remove lo t k ((o, l) ∷ m) g =
    ground (arith, Gapped-weaken lo (suc (o + l)) t m, Gapped-remove (suc (o + l)) t k m g.3)

-- A block of the list begins at or after the bound of the list.
pub has-le : (lo t o l : ℕ) (m : List (ℕ × ℕ)) → Gapped lo t m → has o l m ≡ true → lo ≤ o
has-le lo t o l [] g h = absurd (ground arith)
has-le lo t o l ((c, d) ∷ m) g h = ground (arith, has-le (suc (c + d)) t o l m g.3)

-- Without one of its blocks, a list keeps clear of that block.
pub Sep-remove_self :
    (lo t o l : ℕ) (m : List (ℕ × ℕ))
    → Gapped lo t m
    → has o l m ≡ true
    → Sep o (o + l) (map_remove o m)
unfolding map_remove
Sep-remove_self lo t o l [] g h = tt
Sep-remove_self lo t o l ((c, d) ∷ m) g h = ground (
  arith,
  Sep-before o (o + l) (suc (c + d)) t m,
  Sep-remove_self (suc (c + d)) t o l m g.3,
  has-le (suc (c + d)) t o l m g.3,
)

pub Gapped-insert :
    (lo t c d : ℕ) (m : List (ℕ × ℕ))
    → Gapped lo t m
    → lo ≤ c
    → 0 < d
    → c + d ≤ t
    → Sep c (c + d) m
    → Gapped lo t (map_insert c d m)
unfolding map_insert
Gapped-insert lo t c d [] g h p q s = (h, p, q, tt)
Gapped-insert lo t c d ((o, l) ∷ m) g h p q s =
    ground (arith, Gapped-insert (suc (o + l)) t c d m g.3)
