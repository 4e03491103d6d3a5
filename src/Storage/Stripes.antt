-- ===== src/Storage/Stripes.antt =====
-- How an object is cut into stripes: the loops over the segments in `put_striped_chunks_impl` and the
-- slices of `put_striped`, of kv-service/server/src/storage_tier.rs.
use context_store.Prelude.{
  ℕ, zero, suc, ◌+◌, ◌-◌, ◌*◌, ◌/◌, ◌==◌, ◌&&◌, ltb, if◌then◌else◌, List, [], ◌∷◌, length, take,
  drop,
}

-- `usize::min`
abbrev pub min : ℕ → ℕ → ℕ
min a b = if ltb a b then a else b

-- What the inner loop leaves: the pieces that it pushed, and the rest, of whose first segment
-- `cur_offset` bytes are used up.
pub record Filled : Type 0 where
  pub pieces : List (List ℕ)
  pub cur_offset : ℕ
  pub rest : List (List ℕ)

-- A whole segment is cloned, a part of one is a slice of it.
abbrev pub piece : ℕ → ℕ → List ℕ → List ℕ
piece cur_offset taken seg =
    if taken == length seg && cur_offset == 0 then seg else take taken (drop cur_offset seg)

-- The inner loop, with `need` bytes of the stripe to be filled. Where a segment is not used up, the
-- stripe is full, and the loop ends.
unfoldable pub fill : ℕ → ℕ → List (List ℕ) → Filled
fill need cur_offset [] = record { pieces = []; cur_offset = cur_offset; rest = [] }
fill need cur_offset (seg ∷ segments) =
    let taken = min (length seg - cur_offset) need in
    let next = fill (need - taken) 0 segments in
    if need == 0
    then record { pieces = []; cur_offset = cur_offset; rest = seg ∷ segments }
    else if cur_offset + taken == length seg
    then record next { pieces = piece cur_offset taken seg ∷ next.pieces }
    else record {
      pieces = piece cur_offset taken seg ∷ [];
      cur_offset = cur_offset + taken;
      rest = seg ∷ segments;
    }

-- The outer loop: `count` stripes from number `stripe_idx` on.
unfoldable pub bucket : ℕ → ℕ → ℕ → ℕ → ℕ → List (List ℕ) → List (List (List ℕ))
unfolding fill
bucket chunk_size total zero stripe_idx cur_offset segments = []
bucket chunk_size total (suc count) stripe_idx cur_offset segments =
    let stripe_start = stripe_idx * chunk_size in
    let stripe_end = min (stripe_start + chunk_size) total in
    let filled = fill (stripe_end - stripe_start) cur_offset segments in
    filled.pieces ∷ bucket chunk_size total count (suc stripe_idx) filled.cur_offset filled.rest

-- `(total + chunk_size - 1) / chunk_size`
abbrev pub n_stripes : ℕ → ℕ → ℕ
n_stripes chunk_size total = (total + chunk_size - 1) / chunk_size

unfoldable pub stripes_of : ℕ → ℕ → List (List ℕ) → List (List (List ℕ))
unfolding bucket
stripes_of chunk_size total segments =
    bucket chunk_size total (n_stripes chunk_size total) 0 0 segments

-- The slices of `put_striped`: `count` of them from number `i` on.
unfoldable pub slices : ℕ → List ℕ → ℕ → ℕ → List (List ℕ)
slices chunk_size bytes zero i = []
slices chunk_size bytes (suc count) i =
    let start = i * chunk_size in
    let end = min (start + chunk_size) (length bytes) in
    take (end - start) (drop start bytes) ∷ slices chunk_size bytes count (suc i)
