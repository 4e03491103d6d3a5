-- ===== src/Slab/Safety.antt =====
-- The extents that are alive and the free list share the slab: each byte belongs to one of them.
use context_store.Prelude.{
  ℕ, suc, ◌+◌, ◌%◌, ◌<◌, ◌≤◌, Bool, true, false, some, List, [], ◌∷◌, ◌++◌, ◌≡◌, refl, arith, All,
  subst, ap, ◌∙◌,
}
use context_store.Slab
use context_store.Slab.{FreeList, slab_align, word, round_up, new}
use context_store.Slab.Alloc.{IsValid, free_at, new-IsValid, alloc_best_fit}
use context_store.Slab.Extents.{
  SlabExtent, RdmaSlab, Step, allocated, dropped, Reach, here, next, alloc, drop, init, slab_len,
  huge_align,
}
use context_store.Slab.Free.{Returns, free-Returns, total_len-le}
use context_store.Slab.Gaps.{Gapped, within, total_len}
use context_store.Slab.Grants.{Grants, alloc-Grants}
use context_store.Slab.Rounding.{
  Aligned, Aligned-has, Aligned-take_block, Aligned-free, round_up_lem, slab_len_lem,
}

abbrev pub as_one : Bool → ℕ
as_one true = 1
as_one false = 0

abbrev pub tally : (SlabExtent → ℕ) → List SlabExtent → ℕ
tally f [] = 0
tally f (e ∷ es) = f e + tally f es

-- How many of the extents hold the byte `x`.
abbrev pub holders : ℕ → List SlabExtent → ℕ
holders x = tally (λ e. as_one (within e.offset e.capacity x))

tally_middle :
    (f : SlabExtent → ℕ) (before after : List SlabExtent) (e : SlabExtent)
    → tally f (before ++ e ∷ after) ≡ f e + tally f (before ++ after)
tally_middle f [] after e = refl
tally_middle f (d ∷ before) after e = omega (arith, tally_middle f before after e)

All-middle {ℓ} :
    (P : SlabExtent → Type ℓ) (before after : List SlabExtent) (e : SlabExtent)
    → All P (before ++ e ∷ after)
    → P e × All P (before ++ after)
All-middle P [] after e h = h
All-middle P (d ∷ before) after e h = let (p, q) = All-middle P before after e h.1 in (p, (h.0, q))

pub record IsExtent (total : ℕ) (e : SlabExtent) : Type 0 where
  pub holds : (0 < e.capacity) × (e.len ≤ e.capacity)
  pub inside : e.offset + e.capacity ≤ total
  pub on_page : (e.offset % slab_align ≡ 0) × (e.capacity % slab_align ≡ 0)

pub record IsSafe (total : ℕ) (s : RdmaSlab) : Type 0 where
  pub valid : IsValid s.allocator
  pub aligned : Aligned s.allocator.by_offset
  pub whole : s.allocator.total ≡ total
  pub extents : All (IsExtent total) s.live
  pub owned : (x : ℕ) → x < total → holders x s.live + as_one (free_at s.allocator x) ≡ 1
  pub used : tally (λ e. e.capacity) s.live ≡ s.allocator.bytes_used

init-IsSafe :
    (size_bytes : ℕ)
    → size_bytes + huge_align ≤ word
    → IsSafe (slab_len size_bytes) (init size_bytes)
unfolding init new
init-IsSafe n h =
    let l = slab_len_lem n h in
    record {
      valid = new-IsValid (slab_len n) (omega (arith, l));
      aligned = (omega arith, l.0, tt);
      whole = refl;
      extents = tt;
      owned = λ x k. ground arith;
      used = refl;
    }

module _ (total : ℕ) (before after : List SlabExtent) (e : SlabExtent) (s : RdmaSlab)
    (p : s.live ≡ before ++ e ∷ after) (h : IsSafe total s) where
  live_tally : (f : SlabExtent → ℕ) → tally f s.live ≡ f e + tally f (before ++ after)
  live_tally f = ap (tally f) p ∙ tally_middle f before after e

  parts : IsExtent total e × All (IsExtent total) (before ++ after)
  parts = All-middle (IsExtent total) before after e (subst (All (IsExtent total)) p h.extents)

  taken : (x : ℕ) → within e.offset e.capacity x ≡ true → free_at s.allocator x ≡ false
  taken x w =
      ground
        (arith, parts.0.inside, h.owned x, live_tally (λ d. as_one (within d.offset d.capacity x)))

  returned : Returns s.allocator e.offset e.capacity (drop e s.allocator)
  unfolding drop
  returned =
      free-Returns e.offset e.capacity s.allocator h.valid parts.0.holds.0
        (omega (arith, parts.0.inside, h.whole)) taken

  drop-IsSafe : IsSafe total (record { allocator = drop e s.allocator; live = before ++ after })
  drop-IsSafe = record {
    valid = returned.valid;
    aligned =
        unfold drop in
        Aligned-free e.offset e.capacity s.allocator h.aligned parts.0.on_page.0 parts.0.on_page.1;
    whole = omega (arith, returned.total_after, h.whole);
    extents = parts.1;
    owned = λ x k. ground (
      arith,
      h.owned x k,
      returned.free_after x,
      live_tally (λ d. as_one (within d.offset d.capacity x)),
      taken x,
    );
    used = omega (arith, h.used, live_tally (λ d. d.capacity), returned.used_after);
  }

-- What a successful `alloc` returns.
alloc_parts :
    (size : ℕ) (fl fl' : FreeList) (e : SlabExtent)
    → alloc size fl ≡ some (e, fl')
    → (0 < size)
      × (Slab.alloc (round_up size slab_align) fl ≡ some (e.offset, fl'))
      × (e.len ≡ size)
      × (e.capacity ≡ round_up size slab_align)
unfolding alloc
alloc_parts size fl fl' e h = ground arith

module _ (total size : ℕ) (e : SlabExtent) (fl : FreeList) (s : RdmaSlab)
    (fits : size + slab_align ≤ word) (p : alloc size s.allocator ≡ some (e, fl))
    (h : IsSafe total s) where
  granted : Grants s.allocator e.capacity e.offset fl
  granted =
      let (pos, found, _, capacity) = alloc_parts size s.allocator fl e p in
      rw capacity (
        alloc-Grants (round_up size slab_align) e.offset s.allocator fl h.valid
          (omega (arith, round_up_lem size fits)) found)

  taken-Aligned : Aligned fl.by_offset × (e.offset % slab_align ≡ 0)
  taken-Aligned =
      let (pos, found, _, capacity) = alloc_parts size s.allocator fl e p in
      let n = round_up size slab_align in
      let (l, b, large, taken, _) = alloc_best_fit n e.offset s.allocator fl h.valid found in
      (
        rw taken (
            Aligned-take_block n l e.offset s.allocator h.aligned b (round_up_lem size fits).0
              large),
        (Aligned-has e.offset l s.allocator.by_offset h.aligned b).0,
      )

  alloc-IsSafe : IsSafe total (record { allocator = fl; live = e ∷ s.live })
  alloc-IsSafe =
      let (pos, found, len, capacity) = alloc_parts size s.allocator fl e p in
      let r = round_up_lem size fits in
      record {
        valid = granted.valid;
        aligned = taken-Aligned.0;
        whole = omega (arith, granted.total_after, h.whole);
        extents = (
          record {
            holds = omega (arith, r, pos, len, capacity);
            inside = omega (arith, granted.inside, h.whole);
            on_page = (taken-Aligned.1, omega (arith, r, capacity));
          },
          h.extents,
        );
        owned = λ x k. ground (arith, h.owned x k, granted.free_after x, granted.was_free x);
        used = omega (arith, h.used, granted.used_after);
      }

Step-IsSafe : (total : ℕ) {s t : RdmaSlab} → Step s t → IsSafe total s → IsSafe total t
Step-IsSafe total (allocated size s e fl fits p) h = alloc-IsSafe total size e fl s fits p h
Step-IsSafe total (dropped before after e s p) h = drop-IsSafe total before after e s p h

Reach-IsSafe : (total : ℕ) {s t : RdmaSlab} → IsSafe total s → Reach s t → IsSafe total t
Reach-IsSafe total h here = h
Reach-IsSafe total h (next r st) = Step-IsSafe total st (Reach-IsSafe total h r)

-- Whatever callers allocate and drop, in any order, each byte of the slab is either free or held by
-- exactly one live extent; live extents lie inside the slab, on the alignment, and can hold what was
-- asked for; the used bytes are the sum of their capacities.
pub slab-IsSafe :
    (size_bytes : ℕ) (s : RdmaSlab)
    → size_bytes + huge_align ≤ word
    → Reach (init size_bytes) s
    → IsSafe (slab_len size_bytes) s
slab-IsSafe size_bytes s fits r = Reach-IsSafe (slab_len size_bytes) (init-IsSafe size_bytes fits) r

-- Blocks that make up the whole slab are one block.
one_block : (t : ℕ) (m : List (ℕ × ℕ)) → 0 < t → Gapped 0 t m → total_len m ≡ t → m ≡ (0, t) ∷ []
one_block t [] pos g e = absurd (omega arith)
one_block t ((o, l) ∷ []) pos g e = let p : (o ≡ 0) × (l ≡ t) = omega arith in rw (p.0, p.1)
one_block t ((o, l) ∷ (c, d) ∷ m) pos g e =
    absurd (omega (arith, total_len-le (suc (o + l)) t ((c, d) ∷ m) g.3))

-- Once every extent was dropped, in whatever order, the free list is a single block, the whole slab:
-- no byte leaks and no fragmentation stays.
pub slab_drained :
    (size_bytes : ℕ) (s : RdmaSlab)
    → size_bytes + huge_align ≤ word
    → Reach (init size_bytes) s
    → s.live ≡ []
    → (s.allocator.by_offset ≡ (0, slab_len size_bytes) ∷ []) × (s.allocator.bytes_used ≡ 0)
slab_drained size_bytes s fits r none_live =
    let h = slab-IsSafe size_bytes s fits r in
    let unused : s.allocator.bytes_used ≡ 0 =
      omega (arith, h.used, ap (tally (λ e. e.capacity)) none_live) in
    (
      one_block (slab_len size_bytes) s.allocator.by_offset
          (omega (arith, slab_len_lem size_bytes fits))
          (subst (λ t. Gapped 0 t s.allocator.by_offset) h.whole h.valid.coherent.gapped)
          (omega (arith, h.valid.counts, h.whole, unused)),
      unused,
    )
