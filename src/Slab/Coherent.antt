-- ===== src/Slab/Coherent.antt =====
-- `by_offset` and `by_size` hold the same blocks, each in its order; `insert_block` and
-- `remove_block` keep this.
use context_store.Prelude.{ℕ, ◌+◌, ◌<◌, ◌≤◌, true, ◌≡◌, arith}
use context_store.Slab.{FreeList, insert_block, remove_block}
use context_store.Slab.Content.{has-insert, has-remove}
use context_store.Slab.Gaps.{Gapped, Sep, has, Gapped-remove, Gapped-insert}
use context_store.Slab.Sizes.{
  Ascending, Ascending-insert, Ascending-remove, has-set_insert, has-set_remove,
}

pub record IsCoherent (fl : FreeList) : Type 0 where
  pub gapped : Gapped 0 fl.total fl.by_offset
  pub ascending : Ascending fl.by_size
  pub agree : (o l : ℕ) → has l o fl.by_size ≡ has o l fl.by_offset

module _ (o l : ℕ) (fl : FreeList) (c : IsCoherent fl) where
  pub remove_block-IsCoherent : has o l fl.by_offset ≡ true → IsCoherent (remove_block o l fl)
  unfolding remove_block
  remove_block-IsCoherent b = record {
    gapped = Gapped-remove 0 fl.total o fl.by_offset c.gapped;
    ascending = Ascending-remove l o fl.by_size c.ascending;
    agree = λ p q. ground (
      arith,
      c.agree p q,
      has-set_remove q p l o fl.by_size c.ascending,
      has-remove 0 fl.total p q o l fl.by_offset c.gapped b,
    );
  }

  pub insert_block-IsCoherent :
      0 < l → o + l ≤ fl.total → Sep o (o + l) fl.by_offset → IsCoherent (insert_block o l fl)
  unfolding insert_block
  insert_block-IsCoherent pos fits s = record {
    gapped = Gapped-insert 0 fl.total o l fl.by_offset c.gapped (omega arith) pos fits s;
    ascending = Ascending-insert l o fl.by_size c.ascending;
    agree = λ p q. ground (
      arith,
      c.agree p q,
      has-set_insert q p l o fl.by_size,
      has-insert p q o l o (o + l) fl.by_offset (omega arith) (omega arith) s,
    );
  }
