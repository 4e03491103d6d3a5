-- ===== src/Slab/Free.antt =====
-- `FreeList::free`: the returned bytes become free, joined with the blocks on both sides.
use context_store.Prelude.{
  ℕ, suc, ◌+◌, ◌-◌, ◌<◌, ◌≤◌, true, false, ◌||◌, Option, none, some, List, [], ◌∷◌, subst, ◌≡◌,
  refl, ◌==◌, arith, Bool-cases, inl, inr,
}
use context_store.Slab.{FreeList, insert_block, remove_block, merge_right, merge_left, free}
use context_store.Slab.Alloc.{IsValid, free_at}
use context_store.Slab.Blocks.{map_get, last_below}
use context_store.Slab.Coherent.{IsCoherent, insert_block-IsCoherent, remove_block-IsCoherent}
use context_store.Slab.Content.{
  covered-insert, covered-remove, covered-has, has_bounds, total_len-insert, total_len-remove,
}
use context_store.Slab.Gaps.{Gapped, Sep, has, within, covered, total_len}
use context_store.Slab.Neighbours.{
  has-get, has-last_below, Sep-get_none, Sep-get_some, Sep-last_below-none, Sep-last_below_apart,
  Sep-last_below_touch, Sep-of_uncovered, last_below-remove,
}

-- While `free` runs: the bytes from `start` to `end` are those of the returned range and of the
-- blocks that were joined to it, and `fl'` is `fl` without those blocks.
record Joined (fl : FreeList) (offset capacity start end : ℕ) (fl' : FreeList) : Type 0 where
  coherent : IsCoherent fl'
  inside : end ≤ fl.total
  longer : (start ≤ offset) × (offset + capacity ≤ end)
  kept : fl'.total ≡ fl.total
  lengths :
      total_len fl'.by_offset + end + offset ≡ total_len fl.by_offset + start + offset + capacity
  bytes :
      (x : ℕ)
      → (within start (end - start) x || covered x fl'.by_offset)
        ≡ (within offset capacity x || covered x fl.by_offset)
  counters :
      (fl'.bytes_free ≡ fl.bytes_free)
      × (fl'.bytes_used ≡ fl.bytes_used)
      × (fl'.high_watermark ≡ fl.high_watermark)

module _ (offset capacity : ℕ) (fl : FreeList) (c : IsCoherent fl) (pos : 0 < capacity)
    (fits : offset + capacity ≤ fl.total)
    (s : Sep (suc offset) (offset + capacity - 1) fl.by_offset) where
  record RightJoined (end : ℕ) (fl' : FreeList) : Type 0 where
    joined : Joined fl offset capacity offset end fl'
    apart : Sep (suc offset) end fl'.by_offset
    same_left : last_below offset fl'.by_offset ≡ last_below offset fl.by_offset

  merge_right-Joined :
      (r : Option ℕ)
      → map_get (offset + capacity) fl.by_offset ≡ r
      → RightJoined
          (merge_right (offset + capacity) r fl).0
          (merge_right (offset + capacity) r fl).1
  unfolding merge_right
  merge_right-Joined none e = record {
    joined = record {
      coherent = c;
      inside = fits;
      longer = omega arith;
      kept = refl;
      lengths = omega arith;
      bytes = λ x. ground arith;
      counters = (refl, refl, refl);
    };
    apart =
        Sep-get_none (suc offset) (offset + capacity - 1) (offset + capacity) fl.by_offset s
          (omega arith) (omega arith) e;
    same_left = refl;
  }
  merge_right-Joined (some r) e =
      let b : has (offset + capacity) r fl.by_offset ≡ true =
        has-get (offset + capacity) r fl.by_offset e in
      record {
        joined = record {
          coherent = remove_block-IsCoherent (offset + capacity) r fl c b;
          inside = (has_bounds 0 fl.total (offset + capacity) r fl.by_offset c.gapped b).1;
          longer = omega arith;
          kept = unfold remove_block in refl;
          lengths =
              unfold remove_block in
              omega
                (arith, total_len-remove 0 fl.total (offset + capacity) r fl.by_offset c.gapped b);
          bytes = λ x.
              unfold remove_block in
              ground (
                arith,
                covered-remove 0 fl.total x (offset + capacity) r fl.by_offset c.gapped b,
                covered-has x (offset + capacity) r fl.by_offset b,
              );
          counters = unfold remove_block in (refl, refl, refl);
        };
        apart =
            unfold remove_block in
            Sep-get_some 0 fl.total (suc offset) (offset + capacity - 1) (offset + capacity) r
              fl.by_offset c.gapped s (omega arith) (omega arith) e;
        same_left =
            unfold remove_block in
            last_below-remove 0 fl.total offset (offset + capacity) fl.by_offset c.gapped
              (omega arith);
      }

module _ (offset capacity end : ℕ) (fl fl₁ : FreeList)
    (j : Joined fl offset capacity offset end fl₁) (pos : 0 < capacity)
    (s : Sep (suc offset) end fl₁.by_offset) where
  record LeftJoined (start : ℕ) (fl' : FreeList) : Type 0 where
    joined : Joined fl offset capacity start end fl'
    apart : Sep start end fl'.by_offset

  merge_left-Joined :
      (r : Option (ℕ × ℕ))
      → last_below offset fl₁.by_offset ≡ r
      → LeftJoined (merge_left offset r fl₁).0 (merge_left offset r fl₁).1
  unfolding merge_left
  merge_left-Joined none e = record {
    joined = j;
    apart = Sep-last_below-none 0 fl₁.total offset end fl₁.by_offset j.coherent.gapped s e;
  }
  merge_left-Joined (some (p, q)) e = elim (Bool-cases (p + q == offset)) [
    | inl touch ↦ rw touch (
        let t : p + q ≡ offset = ground arith in
        let b : has p q fl₁.by_offset ≡ true = has-last_below offset p q fl₁.by_offset e in
        record {
          joined = record {
            coherent = remove_block-IsCoherent p q fl₁ j.coherent b;
            inside = j.inside;
            longer = (omega arith, j.longer.1);
            kept = unfold remove_block in j.kept;
            lengths =
                unfold remove_block in
                omega (
                  arith,
                  total_len-remove 0 fl₁.total p q fl₁.by_offset j.coherent.gapped b,
                  j.lengths,
                  j.longer.1,
                );
            bytes = λ x.
                unfold remove_block in
                ground (
                  arith,
                  covered-remove 0 fl₁.total x p q fl₁.by_offset j.coherent.gapped b,
                  covered-has x p q fl₁.by_offset b,
                  j.bytes x,
                );
            counters = unfold remove_block in j.counters;
          };
          apart =
              unfold remove_block in
              Sep-last_below_touch 0 fl₁.total offset end p q fl₁.by_offset j.coherent.gapped s
                (omega (arith, j.longer)) e t;
        })
    | inr apart ↦ rw apart (record {
      joined = j;
      apart =
          Sep-last_below_apart 0 fl₁.total offset end p q fl₁.by_offset j.coherent.gapped s
            (omega (arith, j.longer)) e (ground arith);
    })
  ]

pub total_len-le : (lo t : ℕ) (m : List (ℕ × ℕ)) → Gapped lo t m → lo ≤ t → lo + total_len m ≤ t
total_len-le lo t [] g h = omega arith
total_len-le lo t ((o, l) ∷ []) g h = omega arith
total_len-le lo t ((o, l) ∷ (p, q) ∷ m) g h =
    omega (arith, total_len-le (suc (o + l)) t ((p, q) ∷ m) g.3)

-- `fl'` is `fl` with the `capacity` bytes from `offset` on given back.
pub record Returns (fl : FreeList) (offset capacity : ℕ) (fl' : FreeList) : Type 0 where
  pub valid : IsValid fl'
  pub free_after : (x : ℕ) → free_at fl' x ≡ (free_at fl x || within offset capacity x)
  pub used_after : fl'.bytes_used + capacity ≡ fl.bytes_used
  pub total_after : fl'.total ≡ fl.total

-- The first two lines of `free`.
abbrev credit : ℕ → FreeList → FreeList
credit capacity fl = record fl {
  bytes_free = fl.bytes_free + capacity;
  bytes_used = fl.bytes_used - capacity;
}

module _ (offset capacity start end : ℕ) (fl fl' : FreeList) (v : IsValid fl) (pos : 0 < capacity)
    (j : Joined (credit capacity fl) offset capacity start end fl')
    (s : Sep start end fl'.by_offset) where
  abbrev result : FreeList
  result = insert_block start (end - start) fl'

  Sep-range : Sep start (start + (end - start)) fl'.by_offset
  Sep-range = subst (λ b. Sep start b fl'.by_offset) (omega (arith, j.longer)) s

  result-IsCoherent : IsCoherent result
  result-IsCoherent =
      insert_block-IsCoherent start (end - start) fl' j.coherent (omega (arith, j.longer))
        (omega (arith, j.longer, j.inside, j.kept)) Sep-range

  lengths_after : total_len result.by_offset ≡ total_len fl.by_offset + capacity
  unfolding insert_block
  lengths_after = omega (
    arith,
    j.longer,
    j.lengths,
    total_len-insert start (end - start) start (start + (end - start)) fl'.by_offset (omega arith)
        (omega arith) Sep-range,
  )

  was_used : capacity ≤ fl.bytes_used
  unfolding insert_block
  was_used = omega (
    arith,
    lengths_after,
    total_len-le 0 fl'.total result.by_offset result-IsCoherent.gapped (omega arith),
    j.kept,
    v.counts.counted,
    v.counts.balanced,
  )

  result-Returns : Returns fl offset capacity result
  unfolding insert_block
  result-Returns = record {
    valid = record {
      coherent = result-IsCoherent;
      counts = record {
        counted = omega (arith, lengths_after, v.counts.counted, j.counters);
        balanced = omega (arith, was_used, v.counts.balanced, j.counters, j.kept);
        marked = omega (arith, v.counts.marked, j.counters);
        bounded = omega (arith, v.counts.bounded, j.counters, j.kept);
      };
    };
    free_after = λ x. ground (
      arith,
      j.bytes x,
      covered-insert x start (end - start) start (start + (end - start)) fl'.by_offset (omega arith)
          (omega arith) Sep-range,
    );
    used_after = omega (arith, was_used, j.counters);
    total_after = j.kept;
  }

-- A range inside the slab, not empty and with no free byte, can be given back: exactly its bytes
-- become free, the used bytes shrink by its length and do not wrap, and the invariant holds, so the
-- range was joined with the blocks that touch it.
pub free-Returns :
    (offset capacity : ℕ) (fl : FreeList)
    → IsValid fl
    → 0 < capacity
    → offset + capacity ≤ fl.total
    → ((x : ℕ) → within offset capacity x ≡ true → free_at fl x ≡ false)
    → Returns fl offset capacity (free offset capacity fl)
unfolding free
free-Returns offset capacity fl v pos fits used =
    let fl₀ : FreeList = credit capacity fl in
    let c : IsCoherent fl₀ = record {
      gapped = v.coherent.gapped;
      ascending = v.coherent.ascending;
      agree = v.coherent.agree;
    } in
    let s : Sep (suc offset) (offset + capacity - 1) fl₀.by_offset =
      Sep-of_uncovered 0 fl.total offset (offset + capacity - 1) capacity fl.by_offset
        v.coherent.gapped (omega arith) pos used in
    let right = map_get (offset + capacity) fl.by_offset in
    let (end, fl₁) = merge_right (offset + capacity) right fl₀ in
    let r = merge_right-Joined offset capacity fl₀ c pos fits s right refl in
    let left = last_below offset fl.by_offset in
    let (start, fl₂) = merge_left offset left fl₁ in
    let l = merge_left-Joined offset capacity end fl₀ fl₁ r.joined pos r.apart left r.same_left in
    result-Returns offset capacity start end fl fl₂ v pos l.joined l.apart
