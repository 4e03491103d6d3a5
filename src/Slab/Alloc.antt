-- ===== src/Slab/Alloc.antt =====
-- `FreeList::alloc`: it keeps the invariant, and hands out bytes that were free.
use context_store.Prelude.{
  ℕ, ◌+◌, ◌-◌, ◌<◌, ◌≤◌, Bool, true, ◌&&◌, not, Option, none, some, ltb, ◌≡◌, refl, ◌⊎◌, inl, inr,
  arith, Bool-cases,
}
use context_store.Slab.{FreeList, new, insert_block, remove_block, take_block, alloc}
use context_store.Slab.Blocks.{map_remove, first_fit}
use context_store.Slab.Coherent.{IsCoherent, insert_block-IsCoherent, remove_block-IsCoherent}
use context_store.Slab.Content.{
  covered-insert, covered-remove, covered-has, has_bounds, total_len-insert, total_len-remove,
}
use context_store.Slab.Gaps.{Sep, has, within, covered, total_len, Sep-widen, Sep-remove_self}
use context_store.Slab.Sizes.{first_fit-some}

-- The counters fit the lists.
pub record IsCounted (fl : FreeList) : Type 0 where
  pub counted : total_len fl.by_offset ≡ fl.bytes_free
  pub balanced : fl.bytes_free + fl.bytes_used ≡ fl.total
  pub marked : fl.bytes_used ≤ fl.high_watermark
  pub bounded : fl.high_watermark ≤ fl.total

pub record IsValid (fl : FreeList) : Type 0 where
  pub coherent : IsCoherent fl
  pub counts : IsCounted fl

-- The byte `x` is free.
abbrev pub free_at : FreeList → ℕ → Bool
free_at fl x = covered x fl.by_offset

pub new-IsValid : (total : ℕ) → 0 < total → IsValid (new total)
unfolding new
new-IsValid total h = record {
  coherent = record {
    gapped = (omega arith, h, omega arith, tt);
    ascending = (tt, tt);
    agree = λ o l. ground arith;
  };
  counts = record {
    counted = omega arith;
    balanced = omega arith;
    marked = omega arith;
    bounded = omega arith;
  };
}

module _ (size l o : ℕ) (fl : FreeList) (v : IsValid fl) (b : has o l fl.by_offset ≡ true)
    (fits : size ≤ l) (pos : 0 < size) where
  abbrev rest : FreeList
  rest = remove_block o l fl

  rest-IsCoherent : IsCoherent rest
  rest-IsCoherent = remove_block-IsCoherent o l fl v.coherent b

  rest_apart : Sep (o + size) (o + size + (l - size)) (map_remove o fl.by_offset)
  rest_apart =
      Sep-widen o (o + l) (o + size) (o + size + (l - size)) (map_remove o fl.by_offset)
        (omega arith) (omega arith)
        (Sep-remove_self 0 fl.total o l fl.by_offset v.coherent.gapped b)

  pub block_end : o + l ≤ fl.total
  block_end = (has_bounds 0 fl.total o l fl.by_offset v.coherent.gapped b).1

  length_rest : total_len (map_remove o fl.by_offset) + l ≡ total_len fl.by_offset
  length_rest = total_len-remove 0 fl.total o l fl.by_offset v.coherent.gapped b

  pub take_block-IsCoherent : IsCoherent (take_block size l o fl)
  unfolding take_block
  take_block-IsCoherent = elim (Bool-cases (ltb size l)) [
    | inl split ↦ rw split (
        let c : IsCoherent (insert_block (o + size) (l - size) rest) =
          insert_block-IsCoherent (o + size) (l - size) rest rest-IsCoherent (ground arith)
            (omega (arith, block_end)) rest_apart in
        record { gapped = c.gapped; ascending = c.ascending; agree = c.agree })
    | inr whole ↦ rw whole (
        let c = rest-IsCoherent in
        record { gapped = c.gapped; ascending = c.ascending; agree = c.agree })
  ]

  pub take_block-IsCounted : IsCounted (take_block size l o fl)
  unfolding take_block
  take_block-IsCounted = ground (
    arith,
    length_rest,
    block_end,
    total_len-insert (o + size) (l - size) (o + size) (o + size + (l - size))
        (map_remove o fl.by_offset) (omega arith) (omega arith) rest_apart,
  )

  pub take_block_free :
      (x : ℕ) → free_at (take_block size l o fl) x ≡ (free_at fl x && not (within o size x))
  unfolding take_block
  take_block_free x = ground (
    arith,
    covered-remove 0 fl.total x o l fl.by_offset v.coherent.gapped b,
    covered-has x o l fl.by_offset b,
    covered-insert x (o + size) (l - size) (o + size) (o + size + (l - size))
        (map_remove o fl.by_offset) (omega arith) (omega arith) rest_apart,
  )

module _ (size o : ℕ) (fl fl' : FreeList) (v : IsValid fl) where
  -- `alloc` took a block of the list that is large enough, and no large enough block is smaller or,
  -- at its size, at a lower offset.
  pub alloc_best_fit :
      alloc size fl ≡ some (o, fl')
      → (l : ℕ) × (has o l fl.by_offset ≡ true)
        × (size ≤ l)
        × (fl' ≡ take_block size l o fl)
        × ((p q : ℕ) → has p q fl.by_offset ≡ true → size ≤ q → (l < q) ⊎ ((l ≡ q) × (o ≤ p)))
  unfolding alloc
  alloc_best_fit e = elim (found-cases (first_fit size fl.by_size)) [
    | inl nothing ↦ absurd (ground arith)
    | inr (l, p, found) ↦
        let take : (p ≡ o) × (take_block size l p fl ≡ fl') = ground arith in
        let fit = λ (a c : ℕ). first_fit-some size l p c a fl.by_size v.coherent.ascending found in
        (
          l,
          ground (arith, fit 0 0, v.coherent.agree p l),
          (fit 0 0).1,
          ground arith,
          λ a c h k. ground (arith, fit a c, v.coherent.agree a c),
        )
  ]
    where
      found-cases : (r : Option (ℕ × ℕ)) → (r ≡ none) ⊎ ((l p : ℕ) × (r ≡ some (l, p)))
      found-cases none = inl refl
      found-cases (some (l, p)) = inr (l, p, refl)
