-- ===== src/Slab.antt =====
-- The allocator of kv-service/server/src/rdma/slab.rs: `FreeList`, and the extents of `RdmaSlab`.
pub mod Blocks
pub mod Gaps
pub mod Content
pub mod Neighbours
pub mod Sizes
pub mod Coherent
pub mod Alloc
pub mod Grants
pub mod Free
pub mod Extents
pub mod Rounding
pub mod Safety
mod Tests
use context_store.Prelude.{
  ℕ, ◌+◌, ◌-◌, ◌*◌, ◌/◌, ◌%◌, ◌^◌, Option, none, some, [], ◌∷◌, List, ltb, ◌==◌, if◌then◌else◌,
}
use Blocks.{map_get, map_insert, map_remove, last_below, set_insert, set_remove, first_fit}

-- A `usize` or `u64` is a number below this one.
abbrev pub word : ℕ
word = 2 ^ 64

abbrev pub slab_align : ℕ
slab_align = 4096

-- `(n + align - 1) & !(align - 1)` for `align` a power of two: the sum wraps, and the mask clears
-- the bits below `align`.
unfoldable pub round_up : ℕ → ℕ → ℕ
round_up n align = (n + align - 1) % word / align * align

pub record FreeList : Type 0 where
  pub by_offset : List (ℕ × ℕ)
  pub by_size : List (ℕ × ℕ)
  pub bytes_free : ℕ
  pub bytes_used : ℕ
  pub high_watermark : ℕ
  pub total : ℕ

unfoldable pub new : ℕ → FreeList
new total = record {
  by_offset = (0, total) ∷ [];
  by_size = (total, 0) ∷ [];
  bytes_free = total;
  bytes_used = 0;
  high_watermark = 0;
  total = total;
}

unfoldable pub insert_block : ℕ → ℕ → FreeList → FreeList
insert_block offset len fl = record fl {
  by_offset = map_insert offset len fl.by_offset;
  by_size = set_insert len offset fl.by_size;
}

unfoldable pub remove_block : ℕ → ℕ → FreeList → FreeList
remove_block offset len fl = record fl {
  by_offset = map_remove offset fl.by_offset;
  by_size = set_remove len offset fl.by_size;
}

-- The part of `alloc` after the block `(blk_off, blk_len)` was found.
unfoldable pub take_block : ℕ → ℕ → ℕ → FreeList → FreeList
unfolding insert_block remove_block
take_block size blk_len blk_off fl =
    let fl₁ = remove_block blk_off blk_len fl in
    let fl₂ =
      if ltb size blk_len then insert_block (blk_off + size) (blk_len - size) fl₁ else fl₁ in
    let used = fl₂.bytes_used + size in
    record fl₂ {
      bytes_free = fl₂.bytes_free - size;
      bytes_used = used;
      high_watermark = if ltb fl₂.high_watermark used then used else fl₂.high_watermark;
    }

unfoldable pub alloc : ℕ → FreeList → Option (ℕ × FreeList)
alloc size fl = elim (first_fit size fl.by_size) [
  | none ↦ none
  | some (blk_len, blk_off) ↦ some (blk_off, take_block size blk_len blk_off fl)
]

-- `if let Some(rlen) = right`: the new end, and the lists without the right neighbour.
unfoldable pub merge_right : ℕ → Option ℕ → FreeList → ℕ × FreeList
unfolding remove_block
merge_right end none fl = (end, fl)
merge_right end (some rlen) fl = (end + rlen, remove_block end rlen fl)

-- `if let Some((loff, llen)) = left`: the new start, and the lists without the left neighbour.
unfoldable pub merge_left : ℕ → Option (ℕ × ℕ) → FreeList → ℕ × FreeList
unfolding remove_block
merge_left start none fl = (start, fl)
merge_left start (some (loff, llen)) fl =
    if loff + llen == start then (loff, remove_block loff llen fl) else (start, fl)

unfoldable pub free : ℕ → ℕ → FreeList → FreeList
unfolding insert_block merge_right merge_left
free offset capacity fl =
    let fl₀ = record fl {
      bytes_free = fl.bytes_free + capacity;
      bytes_used = fl.bytes_used - capacity;
    } in
    let right = map_get (offset + capacity) fl.by_offset in
    let left = last_below offset fl.by_offset in
    let (end, fl₁) = merge_right (offset + capacity) right fl₀ in
    let (start, fl₂) = merge_left offset left fl₁ in insert_block start (end - start) fl₂
