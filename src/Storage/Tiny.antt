-- ===== src/Storage/Tiny.antt =====
-- A storage tier of two devices over the small file system and the small metadata service, and an
-- object, for the tests.
use context_store.Prelude.{ℕ, true, false, none, List, [], ◌∷◌, length, concat}
use context_store.Prelude.Int.{pos}
use context_store.Metadata.{BlockMeta}
use context_store.Router.{ObjectKey}
use context_store.Storage.Tier.{Tier, World}
use context_store.Storage.Small.{disk, book}

abbrev pub tiny : Tier
tiny = record {
  executor = disk;
  service = book;
  router = record { devices = (47 ∷ 97 ∷ []) ∷ (47 ∷ 98 ∷ []) ∷ []; data_subdir = 99 ∷ [] };
  striping_threshold = 4;
  striping_chunk_size = 3;
  verify_stripe_checksums = true;
  gc_grace_seconds = 60;
  digest = λ s. 49 ∷ 50 ∷ 51 ∷ 52 ∷ 53 ∷ [];
  hash64 = length;
  hash_stream = λ ss. length (concat ss);
}

abbrev pub object : ObjectKey
object = record { namespace = 120 ∷ []; object_key = 121 ∷ [] }

abbrev pub plain_meta : BlockMeta
plain_meta = record {
  device_id = 0;
  file_path = [];
  size = 0;
  object_handle = [];
  object_generation = 0;
  content_etag = [];
  layout_version = 0;
  created_at = pos 100;
  last_accessed_at = pos 100;
  ttl_seconds = pos 0;
  num_tokens = pos 0;
  num_layers = pos 0;
  dtype = [];
  compressed = false;
  striping = none;
}

abbrev pub empty : World tiny
empty = record {
  metadata = [];
  files = [];
  reads_total = 0;
  writes_total = 0;
  striped_writes = 0;
  bytes_read = 0;
  bytes_written = 0;
  device_read_bytes_total = 0 ∷ 0 ∷ [];
  device_used_bytes_total = 0 ∷ 0 ∷ [];
}

abbrev pub long_segments : List (List ℕ)
long_segments = (1 ∷ 2 ∷ []) ∷ (3 ∷ 4 ∷ 5 ∷ []) ∷ []
