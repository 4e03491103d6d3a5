-- ===== src/Metadata.antt =====
-- The records of the metadata service, kv-service/server/src/metadata.rs: what is known of an object,
-- where its stripes lie, and a request to reclaim a version that nothing refers to any more. An `i64`
-- is an integer; the other numbers are natural.
pub mod Expiry
pub mod Redis
pub mod Backend
pub mod Commands
pub mod Keys
pub mod Sets
pub mod Loops
pub mod Leases
pub mod Versions
pub mod Steps
pub mod Generations
pub mod Strings
pub mod Counters
pub mod Histories
pub mod Tasks
pub mod Retained
pub mod Pending
mod Lost
pub mod Retry
pub mod Instance
mod Tests
use context_store.Prelude.{ℕ, Bool, true, ◌&&◌, ◌==◌, eq_bytes, Option, none, some, List}
use context_store.Prelude.Int.{ℤ, is_positive, checked_add, leb_ℤ}

pub record ChunkLocation : Type 0 where
  pub stripe_index : ℕ
  pub node_id : List ℕ
  pub grpc_endpoint : List ℕ
  pub rdma_endpoint : List ℕ
  pub device_id : ℕ
  pub storage_handle : List ℕ
  pub offset : ℕ
  pub length : ℕ
  pub checksum : List ℕ

pub record StripingInfo : Type 0 where
  pub chunk_size : ℕ
  pub chunk_devices : List ℕ
  pub chunk_paths : List (List ℕ)
  pub total_size : ℕ
  pub chunk_locations : List ChunkLocation
  pub chunk_checksums : List (List ℕ)

pub record BlockMeta : Type 0 where
  pub device_id : ℕ
  pub file_path : List ℕ
  pub size : ℕ
  pub object_handle : List ℕ
  pub object_generation : ℕ
  pub content_etag : List ℕ
  pub layout_version : ℕ
  pub created_at : ℤ
  pub last_accessed_at : ℤ
  pub ttl_seconds : ℤ
  pub num_tokens : ℤ
  pub num_layers : ℤ
  pub dtype : List ℕ
  pub compressed : Bool
  pub striping : Option StripingInfo

pub record GcTask : Type 0 where
  pub id : List ℕ
  pub key : List ℕ
  pub retired : BlockMeta
  pub not_before : ℤ
  pub attempts : ℕ

-- `is_expired` is this at the time of the clock.
unfoldable pub is_expired_at : BlockMeta → ℤ → Bool
unfolding checked_add
is_expired_at m now = is_positive m.ttl_seconds && (elim (checked_add m.created_at m.ttl_seconds) [
  | none ↦ true
  | some expires_at ↦ leb_ℤ expires_at now
])

-- The version of an object: `meta_identity_matches` of the memory tier and of the gRPC service, and
-- the same comparison in the scripts of the metadata service.
unfoldable pub same_version : BlockMeta → BlockMeta → Bool
unfolding eq_bytes
same_version actual expected =
    eq_bytes actual.object_handle expected.object_handle
    && actual.object_generation == expected.object_generation
    && actual.layout_version == expected.layout_version
    && eq_bytes actual.content_etag expected.content_etag
    && actual.size == expected.size
