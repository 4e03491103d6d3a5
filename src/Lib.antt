-- ===== src/Lib.antt =====
-- Verification of ContextStore, a key-value service for KV-cache blocks: kv-service/server is the
-- server (gRPC and RDMA front ends, a memory tier, a storage tier over local devices, metadata in
-- Redis), kv-service/client-rs the client in Rust.
--
-- Slab: the registered memory from which the server serves RDMA (kv-service/server/src/rdma/slab.rs).
--   `FreeList` is a record with the fields of the struct; its B-trees are lists in the order of their
--   keys, with the operations of `BTreeMap` and `BTreeSet` that the code calls (Slab/Blocks). `new`,
--   `alloc`, `free` are in Slab.antt, `RdmaSlab::alloc` and `Drop for SlabExtent` in Slab/Extents,
--   with the steps that any sequence of callers may take (`Step`, `Reach`). Gaps, Content, Neighbours,
--   Sizes and Coherent hold the lemmas on the lists; Alloc, Grants, Free, Rounding and Safety what
--   the operations do. Two steps are never under way at once, since the code holds a mutex.
--   Registration with the network card and the mapping of the memory are left out: they do not touch
--   the allocator.
-- Wire: the messages that client and server exchange over TCP around the RDMA transfers
--   (kv-service/server/src/rdma/wire.rs, the tags of `handle_client` in
--   kv-service/server/src/rdma/server.rs, the frames of kv-service/client-rs/src/rdma.rs). A stream
--   is the list of the bytes still to come, a byte a number; reading beyond its end is the error
--   `closed`. A `String` is its bytes in UTF-8, and the test of `String::from_utf8` is a parameter,
--   `valid_utf8`. Codec has the words, strings and lists; Get, Descriptor, Put and Stripes the
--   messages; Client the frames that the client builds; Serve the dispatch of the server's loop.
--   Reads and Fields say what reading back a part means, GetTrip, DescriptorTrip, PutTrip, Built and
--   ServeTrip prove it for the messages.
-- Router: the names of objects and where their files lie (kv-service/server/src/router.rs). Router.antt
--   has `ObjectKey` and its canonical string, Decimal the numbers as text, Files the paths and the
--   routing, Groups `group_by_device`; Keys and Paths prove round trip and injectivity. A string is
--   its bytes in UTF-8. The digest MD5 and the hash of the routing are parameters, `digest` and
--   `hash64`. An index out of range, which panics, is `none`.
-- Metadata: the records of kv-service/server/src/metadata.rs (Metadata.antt, Expiry) and its Redis
--   backend. Backend has one function for each command and each script, on a store; `none` is an error
--   reply. Redis itself, `serde_json` and Lua's `cjson` are the interfaces `Redis` and `Json` of
--   Metadata/Redis, with their documented behaviour as laws; the laws of `cjson` are only stated for
--   metadata that it writes back unchanged (`IsPlain`: numbers of at most 14 digits, no empty list).
--   A script is one step, as Redis runs it. Commands has `complete_gc_task` and `reschedule_gc_task`,
--   which send several commands in no transaction; each command may fail on its own, and the call
--   begins again once if there is a new connection. Steps has the steps that clients may take, `Step`
--   and `Reach`, with every single command as a step; Pending has the interleavings in which calls of
--   several commands are under way (`History`). Keys, Sets, Loops, Leases, Versions, Generations,
--   Histories, Tasks, Retained and Lost prove what holds of the operations and over histories, with
--   Strings and Counters on what they leave alone. Retry is about `run_with_reconnect`, in which each
--   attempt is refused, executed with its reply lost, or answered.
--   Instance is a small Redis that satisfies the laws, for the tests.
-- Gc: the collector of retired versions, `run_gc_once` of kv-service/server/src/api/service.rs, with
--   `placement_from_meta` and the deletion of chunks (Gc/Chunks). Every call of the metadata service
--   may fail before or after it is executed, and one of several commands between any two of them
--   (`Faults`); the disks and other nodes are the interface `Disks`. Steps, Spares, Outcomes and
--   Delays say what a run does to the metadata and to the disks. Nothing else
--   runs between the calls of one run.
-- MemoryTier: the cache in front of the storage (kv-service/server/src/memory_tier.rs), in the build
--   without the feature `rdma`. MemoryTier.antt has the two caches, their common counter of bytes
--   with its wrap-around, and the insertion with its loop of evictions; the fuel of `make_room` is the
--   number of entries, of which each round removes one. Objects and Writes have the operations over
--   the interface `StorageTier`, Lru the interface of the crate `lru`, ListCache an implementation of
--   it by a list, for the tests. Entries, Evict, Insert, Account, Held, Keeps and Sound hold the lemmas,
--   Steps, Fresh and Limit what holds of the tier. Operations follow one another; the code lets them
--   run at the same time between its locks.
-- Storage: objects in files (kv-service/server/src/storage_tier.rs). Storage/Executor has the errors of
--   kv-service/server/src/error.rs and two interfaces with laws: the trait `IOExecutor` of
--   kv-service/server/src/io_executor/mod.rs, and the calls of the metadata service; both may fail at
--   any call, and a call that fails may have been carried out. Tier has the state, `World`, and the
--   helpers, Commit the publication of a version and its rollback, Stripes the cutting into stripes,
--   Writes and Pointers the writes, Reads and Batch the reads, Placement the stripes of other nodes.
--   An operation is an action of Prelude/Actions: a state, and a result or an error. A path is a
--   string; Paths reads it as Rust does. The hashes are parameters, a panic is an error of its own,
--   and an operation reads the clock once. The per-key locks make operations on one key follow one
--   another; those on other keys may run between their steps in the code, and do not here. Cuts, Calls,
--   Published, Names, Apart, ReadBack, Batches, Verified and Keeps hold lemmas, PutGet, StripedTrip,
--   Refused, Older, Serves and Tiers what holds of the operations, Tiers over the memory tier. Small
--   and Tiny are a file system, a metadata service and a tier for the tests.
-- Numbers are natural, and an `i64` is an integer of Prelude/Int; where the code computes modulo 2^64
-- and can wrap, the remainder is written out. Apart from `make_room`, every loop of the code is over a
-- list or a count that the model follows.
--
-- Not modelled: the reads of the storage tier into pinned memory and their streams, its GPU paths, the
-- I/O executors (O_DIRECT, io_uring), the metadata backend in memory, which only tests use, the
-- handlers of the gRPC service, batches and slab entries of the memory tier, the queue-pair
-- transitions and the foreign-function layers.
pub mod Prelude
pub mod Slab
pub mod Wire
pub mod Router
pub mod Metadata
pub mod Gc
pub mod MemoryTier
pub mod Storage
