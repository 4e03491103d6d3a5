-- ===== src/Gc.antt =====
-- The worker that reclaims retired versions: `run_gc_once` of kv-service/server/src/api/service.rs and
-- what it calls there. The deletions of the chunks of one version, which run at the same time in the
-- code, follow one another here. The disks of the data nodes and the calls to other nodes are an
-- interface.
pub mod Chunks
pub mod Steps
pub mod Spares
pub mod Delays
pub mod Outcomes
mod Tests
use context_store.Prelude.{
  ℕ, zero, suc, ◌+◌, ◌*◌, ◌-◌, ◌%◌, ◌^◌, Bool, true, false, ◌&&◌, ◌||◌, ◌==◌, ltb, Option, none,
  some, List, [], ◌∷◌, map, length, eq_bytes, if◌then◌else◌,
}
use context_store.Prelude.Int.{ℤ, pos, negsuc, ◌+ℤ◌, leb_ℤ, checked_add}
use context_store.Metadata.{ChunkLocation, StripingInfo, BlockMeta, GcTask, same_version}
use context_store.Metadata.Redis.{Redis, Json}
use context_store.Metadata.Backend.{Attempt, attempt, get_block, take_due_gc_tasks}
use context_store.Metadata.Commands.{Calls, complete_gc_task, reschedule_gc_task}
use context_store.Router.{ObjectKey, from_string_key, decoded, invalid}
use context_store.Gc.Chunks.{
  DataNode, PlacementChunk, Disks, placement_from_meta, delete_distributed_chunks,
}

abbrev pub min : ℕ → ℕ → ℕ
min a b = if ltb a b then a else b

-- `saturating_add` of two `i64`
unfoldable pub saturating_add : ℤ → ℤ → ℤ
unfolding checked_add ◌+ℤ◌
saturating_add a b = elim (checked_add a b) [
  | some c ↦ c
  | none ↦ if leb_ℤ (pos 0) (a +ℤ b) then pos (2 ^ 63 - 1) else negsuc (2 ^ 63 - 1)
]

-- `reschedule_gc_task` of the service: the task as it is written back.
unfoldable pub retry_delay : ℕ → ℕ
retry_delay attempts = min (5 * 2 ^ min attempts 6) 300

unfoldable pub delayed : ℤ → GcTask → GcTask
unfolding retry_delay saturating_add
delayed now task =
    let attempts = min (suc task.attempts) (2 ^ 32 - 1) in
    record task {
      attempts = attempts;
      not_before = saturating_add now (pos (retry_delay attempts));
    }

-- What the network does to the calls of the metadata service for one task.
pub record Faults : Type 0 where
  pub reading : Attempt
  pub completing : Calls
  pub rescheduling : Calls

abbrev pub is_current : Option BlockMeta → BlockMeta → Bool
is_current none retired = false
is_current (some meta) retired = same_version meta retired

module _ (J : Json) (R : Redis J.Doc) (prefix : List ℕ) (D : Disks) where
  pub record World : Type 0 where
    pub store : R.Store
    pub disks : D.State

  -- An error of it is only logged.
  unfoldable pub reschedule : ℤ → Faults → GcTask → World → World
  unfolding delayed reschedule_gc_task
  reschedule now faults task w = record w {
    store = (reschedule_gc_task J R prefix faults.rescheduling (delayed now task) w.store).1;
  }

  -- The metadata service completes a task; the result is whether there was no error.
  abbrev pub complete : Faults → GcTask → R.Store → Option Bool × R.Store
  complete faults task s = complete_gc_task J R prefix faults.completing task.id s

  -- After the deletion of the chunks.
  abbrev pub finish : ℤ → Faults → GcTask → R.Store → Bool × D.State → World
  finish now faults task s (false, disks) =
      reschedule now faults task (record { store = s; disks = disks })
  finish now faults task s (true, disks) =
      let (r, s') = complete faults task s in
      elim r [
        | some b ↦ record { store = s'; disks = disks }
        | none ↦ reschedule now faults task (record { store = s'; disks = disks })
      ]

  abbrev pub read_current : Faults → GcTask → R.Store → Option (Option BlockMeta)
  read_current faults task s =
      (attempt faults.reading (λ s'. (get_block J R prefix task.key s', s')) s).0

  -- The body of the loop.
  unfoldable pub gc_task : ℤ → Faults → GcTask → World → World
  unfolding reschedule from_string_key placement_from_meta delete_distributed_chunks
  gc_task now faults task w = elim (from_string_key task.key) [
    | invalid e ↦ record w { store = (complete faults task w.store).1 }
    | decoded key ↦ elim (read_current faults task w.store) [
      | none ↦ reschedule now faults task w
      | some current ↦
          if is_current current task.retired
          then reschedule now faults task w
          else finish now faults task w.store
              (delete_distributed_chunks D (placement_from_meta D.local task.retired) w.disks)
    ]
  ]

  unfoldable pub gc_tasks : ℤ → (List ℕ → Faults) → List GcTask → World → World
  unfolding gc_task
  gc_tasks now faults [] w = w
  gc_tasks now faults (task ∷ tasks) w =
      gc_tasks now faults tasks (gc_task now (faults task.id) task w)

  -- `faults` has what happens to the calls of each task.
  unfoldable pub run_gc_once : ℤ → ℕ → ℕ → Attempt → (List ℕ → Faults) → World → World
  unfolding gc_tasks take_due_gc_tasks
  run_gc_once now limit lease_seconds claiming faults w =
      let (r, s) =
        attempt claiming (take_due_gc_tasks J R prefix now limit lease_seconds) w.store in
      elim r [
        | none ↦ record w { store = s }
        | some tasks ↦ gc_tasks now faults tasks (record w { store = s })
      ]
