-- ===== src/Gc/Chunks.antt =====
-- Where the chunks of a version lie and how they are deleted: `placement_from_meta`,
-- `chunk_location_to_pb`, `is_local_node`, `delete_chunk_from_placement` and
-- `delete_distributed_chunks` of kv-service/server/src/api/service.rs.
use context_store.Prelude.{
  ℕ, zero, suc, ◌*◌, ◌-◌, ◌%◌, ◌^◌, Bool, true, ◌&&◌, ◌||◌, ◌==◌, ltb, none, some, List, [], ◌∷◌,
  map, length, eq_bytes, if◌then◌else◌,
}
use context_store.Metadata.{ChunkLocation, StripingInfo, BlockMeta}

pub record DataNode : Type 0 where
  pub node_id : List ℕ
  pub grpc_endpoint : List ℕ
  pub rdma_endpoint : List ℕ

pub record PlacementChunk : Type 0 where
  pub stripe_index : ℕ
  pub node_id : List ℕ
  pub grpc_endpoint : List ℕ
  pub rdma_endpoint : List ℕ
  pub device_id : ℕ
  pub storage_handle : List ℕ
  pub offset : ℕ
  pub length : ℕ
  pub checksum : List ℕ

-- This node, its disks and those of the other nodes: `delete_placement_chunk` of the storage of this
-- node, and the call of that name of another one, connected to by its endpoint. The result is whether
-- there was no error.
pub record Disks : Type 1 where
  pub State : Type 0
  pub local : DataNode
  pub delete_local : List ℕ → State → Bool × State
  pub delete_remote : List ℕ → PlacementChunk → State → Bool × State

abbrev pub chunk_location_to_pb : ChunkLocation → PlacementChunk
chunk_location_to_pb l = record {
  stripe_index = l.stripe_index;
  node_id = l.node_id;
  grpc_endpoint = l.grpc_endpoint;
  rdma_endpoint = l.rdma_endpoint;
  device_id = l.device_id;
  storage_handle = l.storage_handle;
  offset = l.offset;
  length = l.length;
  checksum = l.checksum;
}

abbrev pub get_or : {A : Type 0} → A → ℕ → List A → A
get_or d n [] = d
get_or d zero (x ∷ xs) = x
get_or d (suc n) (x ∷ xs) = get_or d n xs

abbrev pub local_chunk : DataNode → StripingInfo → ℕ → List ℕ → PlacementChunk
local_chunk local stripe idx path =
    let offset = idx * stripe.chunk_size % 2 ^ 64 in
    let left = stripe.total_size - offset in
    record {
      stripe_index = idx % 2 ^ 32;
      node_id = local.node_id;
      grpc_endpoint = local.grpc_endpoint;
      rdma_endpoint = local.rdma_endpoint;
      device_id = get_or 0 idx stripe.chunk_devices;
      storage_handle = path;
      offset = offset;
      length = if ltb left stripe.chunk_size then left else stripe.chunk_size;
      checksum = get_or [] idx stripe.chunk_checksums;
    }

-- The paths from number `idx` on.
unfoldable pub local_chunks : DataNode → StripingInfo → ℕ → List (List ℕ) → List PlacementChunk
local_chunks local stripe idx [] = []
local_chunks local stripe idx (path ∷ paths) =
    local_chunk local stripe idx path ∷ local_chunks local stripe (suc idx) paths

-- The field `chunks` of its result.
unfoldable pub placement_from_meta : DataNode → BlockMeta → List PlacementChunk
unfolding local_chunks
placement_from_meta local meta = elim meta.striping [
  | some stripe ↦
      if length stripe.chunk_locations == length stripe.chunk_paths
      then map chunk_location_to_pb stripe.chunk_locations
      else local_chunks local stripe 0 stripe.chunk_paths
  | none ↦
      record {
        stripe_index = 0;
        node_id = local.node_id;
        grpc_endpoint = local.grpc_endpoint;
        rdma_endpoint = local.rdma_endpoint;
        device_id = meta.device_id;
        storage_handle = meta.file_path;
        offset = 0;
        length = meta.size;
        checksum = [];
      }
      ∷ []
]

abbrev pub is_local_node : DataNode → PlacementChunk → Bool
is_local_node local node =
    eq_bytes node.node_id local.node_id || eq_bytes node.grpc_endpoint local.grpc_endpoint

module _ (D : Disks) where
  unfoldable pub delete_chunk_from_placement : PlacementChunk → D.State → Bool × D.State
  delete_chunk_from_placement chunk disks =
      if is_local_node D.local chunk
      then D.delete_local chunk.storage_handle disks
      else D.delete_remote chunk.grpc_endpoint chunk disks

  -- Every chunk is tried; one error is an error of all.
  unfoldable pub delete_distributed_chunks : List PlacementChunk → D.State → Bool × D.State
  unfolding delete_chunk_from_placement
  delete_distributed_chunks [] disks = (true, disks)
  delete_distributed_chunks (chunk ∷ chunks) disks =
      let (deleted, disks₁) = delete_chunk_from_placement chunk disks in
      let (rest, disks₂) = delete_distributed_chunks chunks disks₁ in (deleted && rest, disks₂)
