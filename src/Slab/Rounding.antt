-- ===== src/Slab/Rounding.antt =====
-- `round_up`, and blocks on the alignment of the slab.
use context_store.Prelude.{
  ℕ, ◌+◌, ◌-◌, ◌%◌, ◌<◌, ◌≤◌, List, [], ◌∷◌, ◌≡◌, refl, arith, true, Option, none, some,
}
use context_store.Slab.{
  FreeList, word, slab_align, round_up, insert_block, remove_block, take_block, merge_right,
  merge_left, free,
}
use context_store.Slab.Blocks.{map_get, map_insert, map_remove, last_below}
use context_store.Slab.Extents.{huge_align, slab_len}
use context_store.Slab.Gaps.{has}
use context_store.Slab.Neighbours.{has-get, has-last_below}

-- Where the sum does not wrap, `round_up` at the slab's alignment gives the least multiple of it that
-- holds `n`.
pub round_up_lem :
    (n : ℕ)
    → n + slab_align ≤ word
    → (round_up n slab_align % slab_align ≡ 0)
      × (n ≤ round_up n slab_align)
      × (round_up n slab_align < n + slab_align)
unfolding round_up
round_up_lem n h = omega arith

pub slab_len_lem :
    (size_bytes : ℕ)
    → size_bytes + huge_align ≤ word
    → (slab_len size_bytes % slab_align ≡ 0)
      × (size_bytes ≤ slab_len size_bytes)
      × (huge_align ≤ slab_len size_bytes)
unfolding slab_len
slab_len_lem n h = omega arith

abbrev pub Aligned : List (ℕ × ℕ) → Type 0
Aligned [] = Unit {0}
Aligned ((o, l) ∷ m) = (o % slab_align ≡ 0) × (l % slab_align ≡ 0) × Aligned m

pub Aligned-has :
    (o l : ℕ) (m : List (ℕ × ℕ))
    → Aligned m
    → has o l m ≡ true
    → (o % slab_align ≡ 0) × (l % slab_align ≡ 0)
Aligned-has o l [] a h = absurd (ground arith)
Aligned-has o l ((c, d) ∷ m) a h = ground (arith, Aligned-has o l m a.2)

Aligned-insert :
    (o l : ℕ) (m : List (ℕ × ℕ))
    → Aligned m
    → o % slab_align ≡ 0
    → l % slab_align ≡ 0
    → Aligned (map_insert o l m)
unfolding map_insert
Aligned-insert o l [] a h k = (h, k, tt)
Aligned-insert o l ((c, d) ∷ m) a h k = ground (arith, Aligned-insert o l m a.2 h k)

Aligned-remove : (k : ℕ) (m : List (ℕ × ℕ)) → Aligned m → Aligned (map_remove k m)
unfolding map_remove
Aligned-remove k [] a = tt
Aligned-remove k ((c, d) ∷ m) a = ground (arith, Aligned-remove k m a.2)

pub Aligned-take_block :
    (size l o : ℕ) (fl : FreeList)
    → Aligned fl.by_offset
    → has o l fl.by_offset ≡ true
    → size % slab_align ≡ 0
    → size ≤ l
    → Aligned (take_block size l o fl).by_offset
unfolding take_block insert_block remove_block
Aligned-take_block size l o fl a b h fits = ground (
  arith,
  Aligned-has o l fl.by_offset a b,
  Aligned-remove o fl.by_offset a,
  Aligned-insert (o + size) (l - size) (map_remove o fl.by_offset),
)

sub_aligned : (a b : ℕ) → a % slab_align ≡ 0 → b % slab_align ≡ 0 → (a - b) % slab_align ≡ 0
sub_aligned a b h k = omega arith

Aligned-merge_right :
    (end : ℕ) (r : Option ℕ) (fl : FreeList)
    → Aligned fl.by_offset
    → end % slab_align ≡ 0
    → map_get end fl.by_offset ≡ r
    → Aligned (merge_right end r fl).1.by_offset × ((merge_right end r fl).0 % slab_align ≡ 0)
unfolding merge_right remove_block
Aligned-merge_right end none fl a h e = (a, h)
Aligned-merge_right end (some r) fl a h e = ground (
  arith,
  Aligned-remove end fl.by_offset a,
  Aligned-has end r fl.by_offset a (has-get end r fl.by_offset e),
)

Aligned-merge_left :
    (start : ℕ) (r : Option (ℕ × ℕ)) (m : List (ℕ × ℕ)) (fl : FreeList)
    → Aligned m
    → Aligned fl.by_offset
    → start % slab_align ≡ 0
    → last_below start m ≡ r
    → Aligned (merge_left start r fl).1.by_offset × ((merge_left start r fl).0 % slab_align ≡ 0)
unfolding merge_left remove_block
Aligned-merge_left start none m fl k a h e = (a, h)
Aligned-merge_left start (some (p, q)) m fl k a h e =
    ground
      (arith, Aligned-remove p fl.by_offset a, Aligned-has p q m k (has-last_below start p q m e))

pub Aligned-free :
    (offset capacity : ℕ) (fl : FreeList)
    → Aligned fl.by_offset
    → offset % slab_align ≡ 0
    → capacity % slab_align ≡ 0
    → Aligned (free offset capacity fl).by_offset
unfolding free
Aligned-free offset capacity fl a h k =
    let fl₀ : FreeList = record fl {
      bytes_free = fl.bytes_free + capacity;
      bytes_used = fl.bytes_used - capacity;
    } in
    let right = map_get (offset + capacity) fl.by_offset in
    let r = Aligned-merge_right (offset + capacity) right fl₀ a (omega arith) refl in
    let (end, fl₁) = merge_right (offset + capacity) right fl₀ in
    let left = last_below offset fl.by_offset in
    let l = Aligned-merge_left offset left fl.by_offset fl₁ a r.0 h refl in
    let (start, fl₂) = merge_left offset left fl₁ in
    unfold insert_block in
    Aligned-insert start (end - start) fl₂.by_offset l.0 l.1 (sub_aligned end start r.1 l.1)
