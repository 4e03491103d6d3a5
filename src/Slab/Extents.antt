-- ===== src/Slab/Extents.antt =====
-- `RdmaSlab` and `SlabExtent` of kv-service/server/src/rdma/slab.rs: extents are allocated and given
-- back in any order.
use Prim.Native.Nat.{max}
use context_store.Prelude.{
  ℕ, ◌+◌, ◌≤◌, ◌*◌, Option, none, some, List, [], ◌∷◌, ◌++◌, ◌≡◌, ◌==◌, if◌then◌else◌,
}
use context_store.Slab
use context_store.Slab.{FreeList, slab_align, word, round_up}

abbrev pub huge_align : ℕ
huge_align = 2 * 1024 * 1024

-- The length that `RdmaSlab::new` maps for `size_bytes`.
unfoldable pub slab_len : ℕ → ℕ
unfolding round_up
slab_len size_bytes = round_up (max size_bytes huge_align) huge_align

pub record SlabExtent : Type 0 where
  pub offset : ℕ
  pub len : ℕ
  pub capacity : ℕ

-- `RdmaSlab::alloc`
unfoldable pub alloc : ℕ → FreeList → Option (SlabExtent × FreeList)
alloc size fl = if size == 0 then none else elim (Slab.alloc (round_up size slab_align) fl) [
  | none ↦ none
  | some (offset, fl') ↦
      some (record { offset = offset; len = size; capacity = round_up size slab_align }, fl')
]

-- `Drop for SlabExtent`
unfoldable pub drop : SlabExtent → FreeList → FreeList
drop e fl = Slab.free e.offset e.capacity fl

-- The allocator and the extents that are alive.
pub record RdmaSlab : Type 0 where
  pub allocator : FreeList
  pub live : List SlabExtent

unfoldable pub init : ℕ → RdmaSlab
init size_bytes = record { allocator = Slab.new (slab_len size_bytes); live = [] }

-- What any sequence of callers may do: allocate, or let the last reference to an extent go. The sizes
-- that callers ask for are lengths of buffers in memory or were checked against 4 GiB, so rounding
-- them up does not wrap.
pub data Step : RdmaSlab → RdmaSlab → Type 0 where
  allocated :
      (size : ℕ) (s : RdmaSlab) (e : SlabExtent) (fl : FreeList)
      → size + slab_align ≤ word
      → alloc size s.allocator ≡ some (e, fl)
      → Step s (record { allocator = fl; live = e ∷ s.live })
  dropped :
      (before after : List SlabExtent) (e : SlabExtent) (s : RdmaSlab)
      → s.live ≡ before ++ e ∷ after
      → Step s (record { allocator = drop e s.allocator; live = before ++ after })

pub data Reach (s : RdmaSlab) : RdmaSlab → Type 0 where
  here : Reach s s
  next : {t u : RdmaSlab} → Reach s t → Step t u → Reach s u
