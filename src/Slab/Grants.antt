-- ===== src/Slab/Grants.antt =====
-- What a caller of `FreeList::alloc` may rely on, whether it succeeds or fails.
use context_store.Prelude.{
  ℕ, suc, ◌+◌, ◌<◌, ◌≤◌, true, ◌&&◌, not, some, List, [], ◌∷◌, ◌≡◌, inl, inr, arith, Option-cases,
  Bool-cases,
}
use context_store.Slab.{FreeList, take_block, alloc}
use context_store.Slab.Alloc.{
  IsValid, free_at, take_block-IsCoherent, take_block-IsCounted, take_block_free, block_end,
  alloc_best_fit,
}
use context_store.Slab.Blocks.{first_fit}
use context_store.Slab.Content.{covered-has, covered_below}
use context_store.Slab.Gaps.{Gapped, has, within, covered}
use context_store.Slab.Sizes.{first_fit-none}

-- `fl'` is `fl` with the `size` bytes from `o` on, all free before, taken out.
pub record Grants (fl : FreeList) (size o : ℕ) (fl' : FreeList) : Type 0 where
  pub valid : IsValid fl'
  pub inside : o + size ≤ fl.total
  pub was_free : (x : ℕ) → within o size x ≡ true → free_at fl x ≡ true
  pub free_after : (x : ℕ) → free_at fl' x ≡ (free_at fl x && not (within o size x))
  pub used_after : fl'.bytes_used ≡ fl.bytes_used + size
  pub total_after : fl'.total ≡ fl.total

-- A successful `alloc` of at least one byte returns a range inside the slab of which every byte was
-- free; afterwards exactly those bytes are no longer free, the used bytes grow by the size, and the
-- invariant holds again.
pub alloc-Grants :
    (size o : ℕ) (fl fl' : FreeList)
    → IsValid fl
    → 0 < size
    → alloc size fl ≡ some (o, fl')
    → Grants fl size o fl'
alloc-Grants size o fl fl' v pos e =
    let (l, b, fits, taken, _) = alloc_best_fit size o fl fl' v e in
    rw taken (record {
      valid = record {
        coherent = take_block-IsCoherent size l o fl v b fits pos;
        counts = take_block-IsCounted size l o fl v b fits pos;
      };
      inside = omega (arith, block_end size l o fl v b fits pos);
      was_free = λ x w. covered-has x o l fl.by_offset b (ground arith);
      free_after = take_block_free size l o fl v b fits pos;
      used_after = unfold take_block in ground arith;
      total_after = unfold take_block in ground arith;
    })

-- A run of covered bytes lies in one block.
covered_run :
    (lo t o n : ℕ) (m : List (ℕ × ℕ))
    → Gapped lo t m
    → 0 < n
    → ((x : ℕ) → within o n x ≡ true → covered x m ≡ true)
    → (b l : ℕ) × (has b l m ≡ true) × (b ≤ o) × (o + n ≤ b + l)
covered_run lo t o n [] g pos h = absurd (ground (arith, h o))
covered_run lo t o n ((c, d) ∷ m) g pos h = elim (Bool-cases (within c d o)) [
  | inl here ↦ (
    c,
    d,
    ground arith,
    ground arith,
    ground (arith, h (c + d), covered_below (suc (c + d)) t (c + d) m g.3),
  )
  | inr later ↦
      let after : c + d ≤ o = ground (arith, h o, covered_below (suc (c + d)) t o m g.3) in
      let (b, l, found, starts, ends) =
        covered_run (suc (c + d)) t o n m g.3 pos (λ x w. ground (arith, h x w)) in
      (b, l, ground arith, starts, ends)
]

-- If some run of `size` bytes is free, with `size` not zero, `alloc` succeeds: the free list is
-- never fragmented where the memory is not.
pub alloc_complete :
    (size o : ℕ) (fl : FreeList)
    → IsValid fl
    → 0 < size
    → ((x : ℕ) → within o size x ≡ true → free_at fl x ≡ true)
    → (p : ℕ) × (fl' : FreeList) × (alloc size fl ≡ some (p, fl'))
unfolding alloc
alloc_complete size o fl v pos h =
    let (b, l, found, starts, ends) =
      covered_run 0 fl.total o size fl.by_offset v.coherent.gapped pos h in
    elim (Option-cases (first_fit size fl.by_size)) [
      | inl e ↦ absurd (ground (arith, first_fit-none size l b fl.by_size e, v.coherent.agree b l))
      | inr (r, e) ↦ (r.1, take_block size r.0 r.1 fl, rw (e, alloc))
    ]
