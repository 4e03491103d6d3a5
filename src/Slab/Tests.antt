-- ===== src/Slab/Tests.antt =====
-- Runs of the allocator, as in the unit tests of kv-service/server/src/rdma/slab.rs, and an instance
-- of each theorem.
use context_store.Prelude.{ℕ, ◌<◌, ◌≤◌, true, some, [], ◌∷◌, ◌≡◌, refl, ◌⊎◌, arith}
use context_store.Slab
use context_store.Slab.{FreeList, new, alloc, free, take_block, round_up, slab_align}
use context_store.Slab.Alloc.{IsValid, new-IsValid, alloc_best_fit}
use context_store.Slab.Extents
use context_store.Slab.Extents.{RdmaSlab, Reach, here, next, allocated, dropped, init, slab_len}
use context_store.Slab.Free.{Returns, free-Returns}
use context_store.Slab.Gaps.{has}
use context_store.Slab.Grants.{Grants, alloc-Grants, alloc_complete}
use context_store.Slab.Safety.{IsSafe, slab-IsSafe, slab_drained}

program : Unit {0}
unfolding alloc free new take_block Slab.insert_block Slab.Blocks.first_fit round_up
    Slab.Blocks.last_below Slab.Blocks.map_get Slab.Blocks.map_insert Slab.Blocks.set_insert
    Slab.Blocks.map_remove Slab.Blocks.set_remove Extents.alloc Extents.drop init slab_len
program = tt

abbrev start : FreeList
start = record {
  by_offset = (0, 65536) ∷ [];
  by_size = (65536, 0) ∷ [];
  bytes_free = 65536;
  bytes_used = 0;
  high_watermark = 0;
  total = 65536;
}

abbrev after : FreeList
after = record {
  by_offset = (16384, 49152) ∷ [];
  by_size = (49152, 16384) ∷ [];
  bytes_free = 49152;
  bytes_used = 16384;
  high_watermark = 16384;
  total = 65536;
}

new_run : new 65536 ≡ start
unfolding program
new_run = refl

alloc_run : alloc 16384 start ≡ some (0, after)
unfolding program
alloc_run = refl

free_run : free 0 16384 after ≡ record start { high_watermark = 16384 }
unfolding program
free_run = refl

round_up_run : (round_up 1 4096 ≡ 4096) × (round_up 4097 4096 ≡ 8192) × (round_up 0 4096 ≡ 0)
unfolding program
round_up_run = (refl, refl, refl)

start-IsValid : IsValid start
unfolding program
start-IsValid = new-IsValid 65536 (omega arith)

after-IsValid : IsValid after
after-IsValid = (alloc-Grants 16384 0 start after start-IsValid (omega arith) alloc_run).valid

alloc-Grants_example : Grants start 16384 0 after
alloc-Grants_example = alloc-Grants 16384 0 start after start-IsValid (omega arith) alloc_run

alloc_best_fit_example :
    (l : ℕ) × (has 0 l start.by_offset ≡ true)
    × (16384 ≤ l)
    × (after ≡ take_block 16384 l 0 start)
    × ((p q : ℕ) → has p q start.by_offset ≡ true → 16384 ≤ q → (l < q) ⊎ ((l ≡ q) × (0 ≤ p)))
alloc_best_fit_example = alloc_best_fit 16384 0 start after start-IsValid alloc_run

alloc_complete_example : (p : ℕ) × (fl : FreeList) × (alloc 4096 after ≡ some (p, fl))
alloc_complete_example =
    alloc_complete 4096 20480 after after-IsValid (omega arith) (λ x w. ground arith)

free-Returns_example : Returns after 0 16384 (free 0 16384 after)
free-Returns_example =
    free-Returns 0 16384 after after-IsValid (omega arith) (omega arith) (λ x w. ground arith)

-- A slab of the least size, an extent taken, and given back.
abbrev taken : RdmaSlab
taken = record {
  allocator = record {
    by_offset = (8192, 2088960) ∷ [];
    by_size = (2088960, 8192) ∷ [];
    bytes_free = 2088960;
    bytes_used = 8192;
    high_watermark = 8192;
    total = 2097152;
  };
  live = record { offset = 0; len = 5000; capacity = 8192 } ∷ [];
}

taken-Reach : Reach (init 1000) taken
unfolding program
taken-Reach = next here (allocated 5000 (init 1000) _ _ (omega arith) refl)

slab-IsSafe_example : IsSafe (slab_len 1000) taken
slab-IsSafe_example = slab-IsSafe 1000 taken (omega arith) taken-Reach

abbrev drained : RdmaSlab
drained = record {
  allocator = record {
    by_offset = (0, 2097152) ∷ [];
    by_size = (2097152, 0) ∷ [];
    bytes_free = 2097152;
    bytes_used = 0;
    high_watermark = 8192;
    total = 2097152;
  };
  live = [];
}

drained-Reach : Reach (init 1000) drained
unfolding program
drained-Reach =
    next taken-Reach (dropped [] [] (record { offset = 0; len = 5000; capacity = 8192 }) taken refl)

slab_drained_example :
    (drained.allocator.by_offset ≡ (0, slab_len 1000) ∷ []) × (drained.allocator.bytes_used ≡ 0)
slab_drained_example = slab_drained 1000 drained (omega arith) drained-Reach refl
