-- ===== src/Storage/StripedTests.antt =====
-- Runs of the storage tier on an object in stripes, and an instance of its theorem.
use context_store.Prelude.{ℕ, Option, none, some, List, [], ◌∷◌, concat, map, ◌≡◌, refl, arith}
use context_store.Prelude.Int.{pos}
use context_store.Prelude.Results.{ok}
use context_store.Metadata.{BlockMeta}
use context_store.Router.{to_string_key}
use context_store.Metadata.{is_expired_at}
use context_store.Prelude.Actions.{or_raise, ◌>>=◌}
use context_store.Router.Decimal.{show}
use context_store.Router.Files.{
  key_to_versioned_path, chunk_versioned_path, route, chunk_device, object_digest,
}
use context_store.MemoryTier.Objects.{or_else}
use context_store.Storage.Paths.{path_string, file_name}
use context_store.Storage.Stripes.{slices, stripes_of}
use context_store.Storage.Tier.{checksum_segments, on_metadata, on_files}
use context_store.Storage.Writes.{Item, put, put_chunks, place, write_batch_vectored, should_stripe}
use context_store.Storage.Reads.{get, get_chunks, read_aligned_batch}
use context_store.Storage.StripedTrip.{Striped, stored, put_chunks-get_chunks}
use context_store.Storage.Tiny.{tiny, object, plain_meta, empty, long_segments}

-- What the runs unfold.
program : Unit {0}
unfolding slices stripes_of put get put_chunks get_chunks key_to_versioned_path chunk_versioned_path
    route chunk_device to_string_key show path_string file_name object_digest read_aligned_batch
    write_batch_vectored place should_stripe is_expired_at or_raise on_metadata on_files ◌>>=◌
program = tt

abbrev cut : List (List (List ℕ))
cut = stripes_of 3 5 long_segments

abbrev chunk_names : ℕ → ℕ → List ℕ
chunk_names i device =
    path_string (or_else (chunk_versioned_path tiny.digest tiny.router object i device 1 1) [])

abbrev long_items : List Item
long_items =
    record { device = 0; path = chunk_names 0 0; segments = (1 ∷ 2 ∷ []) ∷ (3 ∷ []) ∷ [] }
    ∷ record { device = 1; path = chunk_names 1 1; segments = (4 ∷ 5 ∷ []) ∷ [] }
    ∷ []

abbrev long_files : List (List ℕ × Option (List ℕ))
long_files = (chunk_names 1 1, some (4 ∷ 5 ∷ [])) ∷ (chunk_names 0 0, some (1 ∷ 2 ∷ 3 ∷ [])) ∷ []

long_written : Striped tiny object cut empty
unfolding program
long_written = record {
  generation = 1;
  device = 0;
  items = long_items;
  s₁ = [];
  f₁ = long_files;
  numbered = refl;
  placed = refl;
  first = refl;
  written = refl;
}

long_meta : BlockMeta
unfolding program
long_meta = stored tiny object (checksum_segments tiny) cut 5 plain_meta empty long_written

put_chunks-get_chunks_example :
    ((put_chunks tiny object long_segments plain_meta (pos 100) empty).0 ≡ ok tt)
    × ((get_chunks tiny object
          (pos 200)
          (put_chunks tiny object long_segments plain_meta (pos 100) empty).1).0
        ≡ ok (some ((1 ∷ 2 ∷ 3 ∷ []) ∷ (4 ∷ 5 ∷ []) ∷ [], long_meta)))
    × (concat (map concat cut) ≡ (1 ∷ 2 ∷ 3 ∷ 4 ∷ 5 ∷ []))
unfolding program long_written long_meta
put_chunks-get_chunks_example =
    put_chunks-get_chunks tiny object long_segments plain_meta (pos 100) empty long_written none
      ((to_string_key object, some long_meta) ∷ []) refl refl (λ ss. refl) (omega arith)
      (omega arith) (omega arith) refl (pos 200) (some long_meta)
      ((1 ∷ 2 ∷ 3 ∷ []) ∷ (4 ∷ 5 ∷ []) ∷ []) ((to_string_key object, some long_meta) ∷ [])
      long_files refl refl refl
