-- ===== src/Metadata/Lost.antt =====
-- What a failure between two commands of `reschedule_gc_task` does to a task.
use context_store.Prelude.{
  ℕ, false, none, some, List, eq_bytes_refl, if◌then◌else◌, ◌≡◌, refl, ap, ◌∙◌,
}
use context_store.Prelude.Int.{ℤ}
use context_store.Metadata.{GcTask}
use context_store.Metadata.Redis.{Redis, Json, has}
use context_store.Metadata.Backend.{answered, refused, gc_inflight_key, gc_task_key}
use context_store.Metadata.Commands.{
  Calls, run_command, run_commands, run_call, reschedule_commands, reschedule_gc_task,
}
use context_store.Metadata.Sets.{due, inflight, due-zrem_inflight, inflight-zrem_inflight}
use context_store.Metadata.Leases.{claimed, claim_due-none}

module _ (J : Json) (R : Redis J.Doc) (prefix : List ℕ) where
  first_attempt :
      (calls : Calls) (task : GcTask) (s : R.Store)
      → calls.first 0 ≡ answered
      → calls.first 1 ≡ refused
      → run_commands J R prefix calls.first (reschedule_commands J R prefix task) s
        ≡ (none, (R.zrem (gc_inflight_key prefix) (gc_task_key prefix task.id) s).1)
  unfolding run_commands run_command reschedule_commands
  first_attempt calls task s first second = rw (first, second) refl

  reschedule_gc_task_cut :
      (calls : Calls) (task : GcTask) (s : R.Store)
      → calls.first 0 ≡ answered
      → calls.first 1 ≡ refused
      → calls.reconnects ≡ false
      → reschedule_gc_task J R prefix calls task s
        ≡ (none, (R.zrem (gc_inflight_key prefix) (gc_task_key prefix task.id) s).1)
  unfolding reschedule_gc_task run_call
  reschedule_gc_task_cut calls task s first second alone =
      let e = first_attempt calls task s first second in
      rw (e, alone, run_call) (ap (λ r. (none, r.1)) e)

  -- A task that is in flight is put back, the command that releases it is executed, the next one
  -- fails, and there is no new connection: the call ends with an error, and the task is still
  -- written, but neither due nor in flight, and no claim takes it at any time.
  reschedule_gc_task-lost :
      (calls : Calls) (task : GcTask) (s : R.Store) (d : J.Doc)
      → calls.first 0 ≡ answered
      → calls.first 1 ≡ refused
      → calls.reconnects ≡ false
      → R.hget (gc_task_key prefix task.id) s ≡ some d
      → due J R prefix (gc_task_key prefix task.id) s ≡ none
      → ((reschedule_gc_task J R prefix calls task s).0 ≡ none)
        × (R.hget (gc_task_key prefix task.id) (reschedule_gc_task J R prefix calls task s).1
            ≡ some d)
        × ((now : ℤ) (limit : ℕ)
            → has
                (gc_task_key prefix task.id)
                (claimed J R prefix now limit (reschedule_gc_task J R prefix calls task s).1)
              ≡ false)
  reschedule_gc_task-lost calls task s d first second alone h q =
      let k = gc_task_key prefix task.id in
      rw (reschedule_gc_task_cut calls task s first second alone) (
        refl,
        R.hget_zrem k _ k s ∙ h,
        λ now limit.
            claim_due-none J R prefix now limit k _
              (inflight-zrem_inflight J R prefix k k s
                ∙ ap (λ b. if b then none else inflight J R prefix k s) (eq_bytes_refl k))
              (due-zrem_inflight J R prefix k k s ∙ q),
      )
