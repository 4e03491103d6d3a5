-- ===== src/Storage.antt =====
-- `StorageTier` of kv-service/server/src/storage_tier.rs: objects in files on local devices, whole or in
-- stripes, and their metadata.
pub mod Paths
pub mod Executor
pub mod Tier
pub mod Calls
pub mod Commit
pub mod Stripes
pub mod Cuts
pub mod Writes
pub mod Pointers
pub mod Reads
pub mod Batch
pub mod Placement
pub mod Published
pub mod Names
pub mod ReadBack
pub mod PutGet
pub mod Refused
pub mod Apart
pub mod Keeps
pub mod Older
pub mod Batches
pub mod Verified
pub mod StripedTrip
pub mod Small
pub mod Tiers
pub mod Serves
mod Tiny
mod Tests
mod StripedTests
mod TierTests
