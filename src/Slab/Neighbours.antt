-- ===== src/Slab/Neighbours.antt =====
-- The neighbours that `free` looks up.
use context_store.Prelude.{
  ℕ, suc, ◌+◌, ◌<◌, ◌≤◌, true, false, none, some, List, [], ◌∷◌, ◌≡◌, ◌≢◌, arith,
}
use context_store.Slab.Blocks.{map_get, map_remove, last_below}
use context_store.Slab.Gaps.{Gapped, Sep, has, has-le, within, covered, Sep-before}

pub has-get : (k v : ℕ) (m : List (ℕ × ℕ)) → map_get k m ≡ some v → has k v m ≡ true
unfolding map_get
has-get k v [] h = ground arith
has-get k v ((o, l) ∷ m) h = ground (arith, has-get k v m)

-- Without a block at the end of the range, the blocks after it keep a gap.
pub Sep-get_none :
    (a b e : ℕ) (m : List (ℕ × ℕ)) → Sep a b m → e ≡ suc b → a ≤ e → map_get e m ≡ none → Sep a e m
unfolding map_get
Sep-get_none a b e [] s p w h = tt
Sep-get_none a b e ((o, l) ∷ m) s p w h =
    (ground arith, Sep-get_none a b e m s.1 p w (ground arith))

-- Without the block at the end of the range, the blocks after it keep a gap to its end.
pub Sep-get_some :
    (lo t a b e r : ℕ) (m : List (ℕ × ℕ))
    → Gapped lo t m
    → Sep a b m
    → e ≡ suc b
    → a ≤ e
    → map_get e m ≡ some r
    → Sep a (e + r) (map_remove e m)
unfolding map_get map_remove
Sep-get_some lo t a b e r [] g s p w h = tt
Sep-get_some lo t a b e r ((o, l) ∷ m) g s p w h = ground (
  arith,
  Sep-before a (e + r) (suc (o + l)) t m,
  Sep-get_some (suc (o + l)) t a b e r m g.3 s.1 p w,
  has-le (suc (o + l)) t e r m g.3,
  has-get e r m,
)

last_below-before : (lo t k : ℕ) (m : List (ℕ × ℕ)) → Gapped lo t m → k ≤ lo → last_below k m ≡ none
unfolding last_below
last_below-before lo t k [] g h = ground arith
last_below-before lo t k ((o, l) ∷ m) g h = ground arith

-- A removal at or after the start leaves the left neighbour.
pub last_below-remove :
    (lo t k j : ℕ) (m : List (ℕ × ℕ))
    → Gapped lo t m
    → k ≤ j
    → last_below k (map_remove j m) ≡ last_below k m
unfolding last_below map_remove
last_below-remove lo t k j [] g h = ground arith
last_below-remove lo t k j ((o, l) ∷ m) g h = ground (
  arith,
  last_below-remove (suc (o + l)) t k j m g.3 h,
  last_below-before (suc (o + l)) t k m g.3,
)

pub has-last_below :
    (k o l : ℕ) (m : List (ℕ × ℕ)) → last_below k m ≡ some (o, l) → has o l m ≡ true
unfolding last_below
has-last_below k o l [] h = ground arith
has-last_below k o l ((c, d) ∷ m) h = ground (arith, has-last_below k o l m)

last_below-lt : (k o l : ℕ) (m : List (ℕ × ℕ)) → last_below k m ≡ some (o, l) → o < k
unfolding last_below
last_below-lt k o l [] h = absurd (ground arith)
last_below-lt k o l ((c, d) ∷ m) h = ground (arith, last_below-lt k o l m)

-- What lies after `k` and is clear of the range up to `k` is clear of any range up to there.
Sep-later : (lo t k b p : ℕ) (m : List (ℕ × ℕ)) → Gapped lo t m → Sep k b m → k ≤ lo → Sep p b m
Sep-later lo t k b p [] g s h = tt
Sep-later lo t k b p ((o, l) ∷ m) g s h =
    (ground arith, Sep-later (suc (o + l)) t k b p m g.3 s.1 (omega arith))

-- No block begins before the range.
pub Sep-last_below-none :
    (lo t k b : ℕ) (m : List (ℕ × ℕ))
    → Gapped lo t m
    → Sep (suc k) b m
    → last_below k m ≡ none
    → Sep k b m
unfolding last_below
Sep-last_below-none lo t k b [] g s h = tt
Sep-last_below-none lo t k b ((o, l) ∷ m) g s h = ground (
  arith,
  Sep-last_below-none (suc (o + l)) t k b m g.3 s.1,
  last_below-before (suc (o + l)) t k m g.3,
)

-- The left neighbour does not touch the range, so no block before the range does.
pub Sep-last_below_apart :
    (lo t k b p q : ℕ) (m : List (ℕ × ℕ))
    → Gapped lo t m
    → Sep (suc k) b m
    → k ≤ b
    → last_below k m ≡ some (p, q)
    → p + q ≢ k
    → Sep k b m
unfolding last_below
Sep-last_below_apart lo t k b p q [] g s w h n = tt
Sep-last_below_apart lo t k b p q ((o, l) ∷ m) g s w h n = ground (
  arith,
  Sep-last_below_apart (suc (o + l)) t k b p q m g.3 s.1 w,
  Sep-last_below-none (suc (o + l)) t k b m g.3 s.1,
  last_below-before (suc (o + l)) t k m g.3,
  has-last_below k p q m,
  has-le (suc (o + l)) t p q m g.3,
  last_below-lt k p q m,
)

-- The left neighbour touches the range: without it, no block touches the two together.
pub Sep-last_below_touch :
    (lo t k b p q : ℕ) (m : List (ℕ × ℕ))
    → Gapped lo t m
    → Sep (suc k) b m
    → k ≤ b
    → last_below k m ≡ some (p, q)
    → p + q ≡ k
    → Sep p b (map_remove p m)
unfolding last_below map_remove
Sep-last_below_touch lo t k b p q [] g s w h n = tt
Sep-last_below_touch lo t k b p q ((o, l) ∷ m) g s w h n = ground (
  arith,
  Sep-last_below_touch (suc (o + l)) t k b p q m g.3 s.1 w,
  Sep-later (suc (o + l)) t (suc k) b p m g.3 s.1,
  has-last_below k p q m,
  has-le (suc (o + l)) t p q m g.3,
  last_below-lt k p q m,
)

-- A range of which no byte is covered overlaps no block.
pub Sep-of_uncovered :
    (lo t a b n : ℕ) (m : List (ℕ × ℕ))
    → Gapped lo t m
    → a + n ≡ suc b
    → 0 < n
    → ((x : ℕ) → within a n x ≡ true → covered x m ≡ false)
    → Sep (suc a) b m
Sep-of_uncovered lo t a b n [] g p q h = tt
Sep-of_uncovered lo t a b n ((o, l) ∷ m) g p q h = (
  ground (arith, h a, h o),
  Sep-of_uncovered (suc (o + l)) t a b n m g.3 p q (λ x w. ground (arith, h x w)),
)
