-- ===== src/Gc/Tests.antt =====
-- Instances of the theorems on the worker: a node that deletes its own files, and reaches no other.
use context_store.Prelude.{ℕ, List, [], ◌∷◌, true, false, some, none, ◌≡◌, ◌⊎◌, refl, eq_bytes}
use context_store.Prelude.Int.{pos, ◌+ℤ◌, ◌≤ℤ◌, fits_i64}
use context_store.Metadata.{BlockMeta, GcTask, same_version}
use context_store.Metadata.Backend.{
  block_key, gc_task_key, gc_due_key, gc_inflight_key, answered, get_block, take_due_gc_tasks,
  claim_due, claim, requeue, requeue_expired, read_tasks, attempt,
}
use context_store.Metadata.Commands.{
  Calls, complete_gc_task, complete_commands, run_call, run_commands, run_command,
}
use context_store.Metadata.Redis.{has}
use context_store.Metadata.Instance.{meta_doc, task_doc, docs, small_redis}
use context_store.Router.Decimal.{parse}
use context_store.Router.{from_string_key, split_once, cut_key, split_at, is_char_boundary, decoded}
use context_store.Gc.{Faults, World, is_current, delayed, gc_task, gc_tasks, run_gc_once}
use context_store.Gc.Chunks.{
  DataNode, Disks, placement_from_meta, delete_chunk_from_placement, delete_distributed_chunks,
}
use context_store.Gc.Spares.{taken, Reclaimed, run_gc_once-Reclaimed}
use context_store.Gc.Outcomes.{IsDone, IsWaiting, gc_task_lem}
use context_store.Gc.Delays.{delayed_lem}

abbrev this_node : DataNode
this_node = record { node_id = 97 ∷ []; grpc_endpoint = []; rdma_endpoint = [] }

-- The files that were deleted.
abbrev test_disks : Disks
test_disks = record {
  State = List (List ℕ);
  local = this_node;
  delete_local = λ handle deleted. (true, handle ∷ deleted);
  delete_remote = λ endpoint chunk deleted. (false, deleted);
}

abbrev old_version : BlockMeta
old_version = record {
  device_id = 0;
  file_path = 102 ∷ [];
  size = 2;
  object_handle = [];
  object_generation = 1;
  content_etag = [];
  layout_version = 1;
  created_at = pos 100;
  last_accessed_at = pos 100;
  ttl_seconds = pos 0;
  num_tokens = pos 0;
  num_layers = pos 0;
  dtype = [];
  compressed = false;
  striping = none;
}

-- "1:nk"
abbrev object : List ℕ
object = 49 ∷ 58 ∷ 110 ∷ 107 ∷ []

abbrev old_task : GcTask
old_task = record {
  id = object;
  key = object;
  retired = old_version;
  not_before = pos 150;
  attempts = 0;
}

abbrev old_world : World docs small_redis [] test_disks
old_world = record {
  store = record {
    strings =
        (block_key [] object, some (meta_doc (record old_version { object_generation = 2 }))) ∷ [];
    hashes = (gc_task_key [] object, some (task_doc old_task)) ∷ [];
    sets = (gc_due_key [], gc_task_key [] object, some (pos 150)) ∷ [];
  };
  disks = [];
}

abbrev all_answered : Calls
all_answered = record { first = λ n. answered; reconnects = true; second = λ n. answered }

abbrev no_faults : Faults
no_faults = record { reading = answered; completing = all_answered; rescheduling = all_answered }

reclaiming_run :
    (run_gc_once docs small_redis [] test_disks
      (pos 200)
      10
      60
      answered
      (λ id. no_faults)
      old_world).disks
    ≡ (102 ∷ []) ∷ []
unfolding run_gc_once gc_tasks gc_task take_due_gc_tasks claim_due claim requeue requeue_expired
    read_tasks complete_gc_task complete_commands run_call run_commands run_command get_block
    from_string_key split_once cut_key split_at is_char_boundary block_key gc_task_key gc_due_key
    gc_inflight_key placement_from_meta delete_distributed_chunks delete_chunk_from_placement has
    eq_bytes same_version parse
reclaiming_run = refl

run_gc_once-Reclaimed_example :
    Reclaimed docs small_redis [] test_disks old_world.store
      (taken docs small_redis [] test_disks
        (attempt answered
          (take_due_gc_tasks docs small_redis [] (pos 200) 10 60)
          old_world.store).0)
      []
      (run_gc_once docs small_redis [] test_disks
        (pos 200)
        10
        60
        answered
        (λ id. no_faults)
        old_world).disks
    × ((key : List ℕ)
        → get_block docs small_redis [] key
            (run_gc_once docs small_redis [] test_disks
              (pos 200)
              10
              60
              answered
              (λ id. no_faults)
              old_world).store
          ≡ get_block docs small_redis [] key old_world.store)
run_gc_once-Reclaimed_example =
    run_gc_once-Reclaimed docs small_redis [] test_disks (pos 200) 10 60 answered (λ id. no_faults)
      old_world

object-decoded :
    from_string_key object ≡ decoded (record { namespace = 110 ∷ []; object_key = 107 ∷ [] })
unfolding from_string_key split_once cut_key split_at is_char_boundary parse
object-decoded = refl

object-shown :
    get_block docs small_redis [] object old_world.store
    ≡ some (some (record old_version { object_generation = 2 }))
unfolding get_block block_key eq_bytes
object-shown = refl

gc_task_lem_example :
    ((is_current (some (record old_version { object_generation = 2 })) old_version ≡ true)
      × (((gc_task docs small_redis [] test_disks (pos 200) no_faults old_task old_world).disks
            ≡ [])
          × IsWaiting docs small_redis []
              (delayed (pos 200) old_task)
              (gc_task docs small_redis [] test_disks
                (pos 200)
                no_faults
                old_task
                old_world).store))
    ⊎ (((is_current (some (record old_version { object_generation = 2 })) old_version ≡ false)
          × ((gc_task docs small_redis [] test_disks (pos 200) no_faults old_task old_world).disks
              ≡ (delete_distributed_chunks test_disks
                  (placement_from_meta this_node old_version)
                  []).1))
        × (((delete_distributed_chunks test_disks (placement_from_meta this_node old_version) []).0
                ≡ true)
              × IsDone docs small_redis [] object
                  (gc_task docs small_redis [] test_disks
                    (pos 200)
                    no_faults
                    old_task
                    old_world).store
            ⊎ ((delete_distributed_chunks test_disks
                  (placement_from_meta this_node old_version)
                  []).0
                ≡ false)
              × IsWaiting docs small_redis []
                  (delayed (pos 200) old_task)
                  (gc_task docs small_redis [] test_disks
                    (pos 200)
                    no_faults
                    old_task
                    old_world).store))
gc_task_lem_example =
    gc_task_lem docs small_redis [] test_disks (pos 200) no_faults old_task
      (record { namespace = 110 ∷ []; object_key = 107 ∷ [] })
      (some (record old_version { object_generation = 2 })) old_world object-decoded refl
      (λ n. refl) (λ n. refl) object-shown

delayed_lem_example :
    (pos 200 ≤ℤ (delayed (pos 200) old_task).not_before)
    × ((delayed (pos 200) old_task).not_before ≤ℤ pos 200 +ℤ pos 300)
    × ((pos 200 +ℤ pos 10 ≤ℤ (delayed (pos 200) old_task).not_before)
        ⊎ (fits_i64 (pos 200 +ℤ pos 300) ≡ false))
delayed_lem_example = delayed_lem (pos 200) old_task refl
