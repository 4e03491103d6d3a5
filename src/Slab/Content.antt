-- ===== src/Slab/Content.antt =====
-- What the updates of `by_offset` do to its blocks, its bytes and their number.
use context_store.Prelude.{
  ℕ, suc, ◌+◌, ◌<◌, ◌≤◌, true, false, ◌&&◌, ◌||◌, not, List, [], ◌∷◌, ◌==◌, ◌≡◌, arith,
}
use context_store.Slab.Blocks.{map_insert, map_remove}
use context_store.Slab.Gaps.{Gapped, Sep, has, has-le, within, covered, total_len}

-- A block keeps clear of the list before it.
pub covered_below : (lo t x : ℕ) (m : List (ℕ × ℕ)) → Gapped lo t m → x < lo → covered x m ≡ false
covered_below lo t x [] g h = ground arith
covered_below lo t x ((o, l) ∷ m) g h = ground (arith, covered_below (suc (o + l)) t x m g.3)

-- A byte of a block is covered.
pub covered-has :
    (x o l : ℕ) (m : List (ℕ × ℕ)) → has o l m ≡ true → within o l x ≡ true → covered x m ≡ true
covered-has x o l [] h w = h
covered-has x o l ((c, d) ∷ m) h w = ground (arith, covered-has x o l m)

pub covered-insert :
    (x c d a b : ℕ) (m : List (ℕ × ℕ))
    → a ≤ c
    → c ≤ b
    → Sep a b m
    → covered x (map_insert c d m) ≡ (within c d x || covered x m)
unfolding map_insert
covered-insert x c d a b [] h k s = ground arith
covered-insert x c d a b ((o, l) ∷ m) h k s = ground (arith, covered-insert x c d a b m h k s.1)

pub covered-remove :
    (lo t x o l : ℕ) (m : List (ℕ × ℕ))
    → Gapped lo t m
    → has o l m ≡ true
    → covered x (map_remove o m) ≡ (covered x m && not (within o l x))
unfolding map_remove
covered-remove lo t x o l [] g h = ground arith
covered-remove lo t x o l ((c, d) ∷ m) g h = ground (
  arith,
  covered-remove (suc (c + d)) t x o l m g.3,
  has-le (suc (c + d)) t o l m g.3,
  covered_below (suc (c + d)) t x m g.3,
)

pub has-insert :
    (p q c d a b : ℕ) (m : List (ℕ × ℕ))
    → a ≤ c
    → c ≤ b
    → Sep a b m
    → has p q (map_insert c d m) ≡ ((c == p && d == q) || has p q m)
unfolding map_insert
has-insert p q c d a b [] h k s = ground arith
has-insert p q c d a b ((o, l) ∷ m) h k s = ground (arith, has-insert p q c d a b m h k s.1)

pub has-remove :
    (lo t p q o l : ℕ) (m : List (ℕ × ℕ))
    → Gapped lo t m
    → has o l m ≡ true
    → has p q (map_remove o m) ≡ (has p q m && not (o == p && l == q))
unfolding map_remove
has-remove lo t p q o l [] g h = ground arith
has-remove lo t p q o l ((c, d) ∷ m) g h = ground (
  arith,
  has-remove (suc (c + d)) t p q o l m g.3,
  has-le (suc (c + d)) t o l m g.3,
  has-le (suc (c + d)) t p q m g.3,
)

-- Two pairs of the list with one offset have one length.
has_unique :
    (lo t o l k : ℕ) (m : List (ℕ × ℕ))
    → Gapped lo t m
    → has o l m ≡ true
    → has o k m ≡ true
    → l ≡ k
has_unique lo t o l k [] g h j = absurd (ground arith)
has_unique lo t o l k ((c, d) ∷ m) g h j = ground (
  arith,
  has_unique (suc (c + d)) t o l k m g.3,
  has-le (suc (c + d)) t o l m g.3,
  has-le (suc (c + d)) t o k m g.3,
)

pub total_len-insert :
    (c d a b : ℕ) (m : List (ℕ × ℕ))
    → a ≤ c
    → c ≤ b
    → Sep a b m
    → total_len (map_insert c d m) ≡ d + total_len m
unfolding map_insert
total_len-insert c d a b [] h k s = ground arith
total_len-insert c d a b ((o, l) ∷ m) h k s = ground (arith, total_len-insert c d a b m h k s.1)

pub total_len-remove :
    (lo t o l : ℕ) (m : List (ℕ × ℕ))
    → Gapped lo t m
    → has o l m ≡ true
    → total_len (map_remove o m) + l ≡ total_len m
unfolding map_remove
total_len-remove lo t o l [] g h = absurd (ground arith)
total_len-remove lo t o l ((c, d) ∷ m) g h =
    ground (arith, total_len-remove (suc (c + d)) t o l m g.3, has-le (suc (c + d)) t o l m g.3)

-- A block lies below the bound of the list, and is not empty.
pub has_bounds :
    (lo t o l : ℕ) (m : List (ℕ × ℕ)) → Gapped lo t m → has o l m ≡ true → (0 < l) × (o + l ≤ t)
has_bounds lo t o l [] g h = absurd (ground arith)
has_bounds lo t o l ((c, d) ∷ m) g h = ground (arith, has_bounds (suc (c + d)) t o l m g.3)
