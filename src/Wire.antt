-- ===== src/Wire.antt =====
-- The control-plane protocol of kv-service/server/src/rdma/wire.rs and the client's side of it in
-- kv-service/client-rs/src/rdma.rs.
pub mod Codec
pub mod Reads
pub mod Get
pub mod Descriptor
pub mod Put
pub mod Stripes
pub mod Fields
pub mod GetTrip
pub mod DescriptorTrip
pub mod PutTrip
pub mod Client
pub mod Serve
pub mod Built
pub mod ServeTrip
mod Tests
