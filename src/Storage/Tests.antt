-- ===== src/Storage/Tests.antt =====
-- Runs of the storage tier over two devices, a small file system and a small metadata service, and an
-- instance of each theorem.
use context_store.Prelude.{ℕ, none, some, List, [], ◌∷◌, concat, map, ◌≡◌, refl, arith}
use context_store.Prelude.Int.{pos}
use context_store.Prelude.Results.{ok, err}
use context_store.Metadata.{BlockMeta}
use context_store.Router.{to_string_key}
use context_store.Metadata.{is_expired_at}
use context_store.Prelude.Actions.{or_raise, ◌>>=◌}
use context_store.Router.Decimal.{show}
use context_store.Router.Files.{
  key_to_versioned_path, chunk_versioned_path, route, chunk_device, object_digest,
}
use context_store.MemoryTier.Objects.{or_else}
use context_store.Storage.Paths.{path_string, file_name}
use context_store.Storage.Stripes.{slices, stripes_of}
use context_store.Storage.Cuts.{stripes_of_lem}
use context_store.Storage.Executor.{metadata}
use context_store.Storage.Tier.{Tier, World, on_metadata, on_files}
use context_store.Storage.Writes.{put, put_chunks, place, write_batch_vectored, should_stripe}
use context_store.Storage.Reads.{get, get_chunks, read_aligned_batch}
use context_store.Storage.PutGet.{Written, stored, put-get_bytes}
use context_store.Storage.Tiny.{tiny, object, plain_meta, empty, long_segments}
use context_store.Storage.Small.{book, refusing, find}
use context_store.Storage.Pointers.{put_from_ptr}
use context_store.Storage.Refused.{put-refused}
use context_store.Storage.Serves.{get_shown}
use context_store.Storage.Older.{puts_keep}

-- What the runs unfold.
program : Unit {0}
unfolding slices stripes_of put get put_chunks get_chunks key_to_versioned_path chunk_versioned_path
    route chunk_device to_string_key show path_string file_name object_digest read_aligned_batch
    write_batch_vectored place should_stripe is_expired_at or_raise on_metadata on_files ◌>>=◌
program = tt

stripes_of_lem_example :
    (map concat (stripes_of 3 5 ((1 ∷ 2 ∷ []) ∷ (3 ∷ 4 ∷ 5 ∷ []) ∷ []))
      ≡ ((1 ∷ 2 ∷ 3 ∷ []) ∷ (4 ∷ 5 ∷ []) ∷ []))
    × (concat (map concat (stripes_of 3 5 ((1 ∷ 2 ∷ []) ∷ (3 ∷ 4 ∷ 5 ∷ []) ∷ [])))
        ≡ (1 ∷ 2 ∷ 3 ∷ 4 ∷ 5 ∷ []))
unfolding program
stripes_of_lem_example = stripes_of_lem 3 ((1 ∷ 2 ∷ []) ∷ (3 ∷ 4 ∷ 5 ∷ []) ∷ []) (omega arith)

abbrev file_names : List (List ℕ)
file_names = or_else (key_to_versioned_path tiny.digest tiny.router object 0 1 1) []

abbrev small_bytes : List ℕ
small_bytes = 7 ∷ 8 ∷ []

small_written : Written tiny object small_bytes plain_meta empty
unfolding program
small_written = record {
  generation = 1;
  device = 0;
  names = file_names;
  s₁ = [];
  f₁ = (path_string file_names, some small_bytes) ∷ [];
  numbered = refl;
  has_device = refl;
  named = refl;
  written = refl;
}

small_meta : BlockMeta
unfolding program
small_meta = stored tiny object small_bytes plain_meta empty small_written

-- A run: the object is put, and read with the metadata of generation 1.
small_run :
    (get tiny object (pos 200) (put tiny object small_bytes plain_meta (pos 100) empty).1).0
    ≡ ok (some (small_bytes, small_meta))
unfolding program small_written small_meta
small_run = refl

put-get_bytes_example :
    ((put tiny object small_bytes plain_meta (pos 100) empty).0 ≡ ok tt)
    × (book.visible
          (to_string_key object)
          (put tiny object small_bytes plain_meta (pos 100) empty).1.metadata
        ≡ some small_meta)
    × ((get tiny object (pos 200) (put tiny object small_bytes plain_meta (pos 100) empty).1).0
        ≡ ok (some (small_bytes, small_meta)))
unfolding program small_written small_meta
put-get_bytes_example =
    put-get_bytes tiny object small_bytes plain_meta empty small_written (pos 100) none
      ((to_string_key object, some small_meta) ∷ []) refl (pos 200) (some small_meta) small_bytes
      ((to_string_key object, some small_meta) ∷ [])
      ((path_string file_names, some small_bytes) ∷ []) refl refl refl refl

abbrev shown : World tiny
shown = (put tiny object small_bytes plain_meta (pos 100) empty).1

-- The file of the first version, when a second one is written.
puts_keep_example :
    (find (path_string file_names) (put tiny object (9 ∷ []) plain_meta (pos 150) shown).1.files
      ≡ some small_bytes)
    × (find
          (path_string file_names)
          (put_chunks tiny object long_segments plain_meta (pos 150) shown).1.files
        ≡ some small_bytes)
    × (find
          (path_string file_names)
          (put_from_ptr tiny object (9 ∷ []) plain_meta (pos 150) shown).1.files
        ≡ some small_bytes)
unfolding program small_written small_meta
puts_keep_example =
    puts_keep tiny object refl (path_string file_names) (some small_bytes) small_meta none
      (record { device = 0; names = file_names; named = refl; joined = refl }) (omega arith)
      (omega arith) shown (9 ∷ []) long_segments plain_meta (pos 150) refl refl

abbrev no_service : Tier
no_service = record tiny { service = refusing }

abbrev bare : World no_service
bare = record {
  metadata = [];
  files = [];
  reads_total = 0;
  writes_total = 0;
  striped_writes = 0;
  bytes_read = 0;
  bytes_written = 0;
  device_read_bytes_total = [];
  device_used_bytes_total = [];
}

bare_written : Written no_service object small_bytes plain_meta bare
unfolding program
bare_written = record {
  generation = 1;
  device = 0;
  names = file_names;
  s₁ = [];
  f₁ = (path_string file_names, some small_bytes) ∷ [];
  numbered = refl;
  has_device = refl;
  named = refl;
  written = refl;
}

put-refused_example :
    ((put no_service object small_bytes plain_meta (pos 100) bare).0 ≡ err metadata)
    × (find
          (path_string file_names)
          (put no_service object small_bytes plain_meta (pos 100) bare).1.files
        ≡ none)
    × ((put no_service object small_bytes plain_meta (pos 100) bare).1.metadata ≡ [])
unfolding program bare_written
put-refused_example =
    put-refused no_service object small_bytes plain_meta (pos 100) bare bare_written metadata []
      ((path_string file_names, none) ∷ (path_string file_names, some small_bytes) ∷ []) refl refl
      refl

get_shown_example :
    (small_meta ≡ small_meta) × (find (path_string file_names) shown.files ≡ some small_bytes)
unfolding program small_written small_meta
get_shown_example =
    get_shown tiny object small_meta (pos 200) shown 47
      (97 ∷ 47 ∷ 99 ∷ 47 ∷ 100 ∷ 97 ∷ 116 ∷ 97 ∷ 47 ∷ 120 ∷ 47 ∷ 49 ∷ 50 ∷ 47 ∷ 51 ∷ 52 ∷ 47 ∷ 53
        ∷ 46 ∷ 103 ∷ 49 ∷ 46 ∷ 108 ∷ 49 ∷ 46 ∷ 98 ∷ 105 ∷ 110 ∷ [])
      small_bytes small_meta refl refl refl refl
