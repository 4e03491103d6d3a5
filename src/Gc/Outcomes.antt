-- ===== src/Gc/Outcomes.antt =====
-- What becomes of one task when the calls of the metadata service succeed.
use context_store.Prelude.{
  ℕ, suc, Bool, true, false, Option, none, some, List, [], ◌∷◌, eq_bytes_refl, if◌then◌else◌, ◌≡◌,
  refl, ap, ◌∙◌, sym, subst, inl, inr, ◌⊎◌, Bool-cases,
}
use context_store.Prelude.Int.{ℤ, leb_ℤ}
use context_store.Metadata.{BlockMeta, GcTask}
use context_store.Metadata.Redis.{Redis, Json, has}
use context_store.Metadata.Backend.{
  Attempt, gc_task_key, gc_inflight_key, answered, attempt, get_block,
}
use context_store.Metadata.Commands.{
  Command, Calls, run_command, run_commands, run_call, complete_commands, reschedule_commands,
  complete_gc_task, reschedule_gc_task,
}
use context_store.Metadata.Sets.{
  due, inflight, due-zadd_due, inflight-zadd_due, inflight-zrem_inflight,
}
use context_store.Metadata.Leases.{claimed, claim_due-early}
use context_store.Router.{ObjectKey, from_string_key, decoded}
use context_store.Gc.{Faults, World, is_current, delayed, reschedule, finish, read_current, gc_task}
use context_store.Gc.Chunks.{Disks, placement_from_meta, delete_distributed_chunks}

module _ (J : Json) (R : Redis J.Doc) (prefix : List ℕ) where
  -- Nothing is left of a task but perhaps a key that is due.
  pub record IsDone (id : List ℕ) (s : R.Store) : Type 0 where
    pub deleted : R.hget (gc_task_key prefix id) s ≡ none
    pub released : inflight J R prefix (gc_task_key prefix id) s ≡ none

  -- A task is written, due at its time, under no lease, and no call claims it before that time.
  pub record IsWaiting (task : GcTask) (s : R.Store) : Type 0 where
    pub payload : J.Doc
    pub written : R.hget (gc_task_key prefix task.id) s ≡ some payload
    pub read : J.deserialize_task payload ≡ some task
    pub waiting : due J R prefix (gc_task_key prefix task.id) s ≡ some task.not_before
    pub released : inflight J R prefix (gc_task_key prefix task.id) s ≡ none
    pub early :
        (now : ℤ) (limit : ℕ)
        → (leb_ℤ task.not_before now ≡ true)
          ⊎ (has (gc_task_key prefix task.id) (claimed J R prefix now limit s) ≡ false)

  -- Every command of the first attempt is answered.
  abbrev pub IsAnswered : Calls → Type 0
  IsAnswered calls = (n : ℕ) → calls.first n ≡ answered

  run_all : List (Command J.Doc) → R.Store → R.Store
  run_all [] s = s
  run_all (c ∷ cs) s = run_all cs (run_command J R prefix c s)

  run_commands_answered :
      (net : ℕ → Attempt) (cs : List (Command J.Doc)) (s : R.Store)
      → ((n : ℕ) → net n ≡ answered)
      → run_commands J R prefix net cs s ≡ (some true, run_all cs s)
  unfolding run_commands run_all
  run_commands_answered net [] s h = refl
  run_commands_answered net (c ∷ cs) s h =
      rw (h 0, run_commands) (run_commands_answered (λ n. net (suc n)) cs _ (λ n. h (suc n)))

  run_call_answered :
      (calls : Calls) (cs : List (Command J.Doc)) (s : R.Store)
      → IsAnswered calls
      → run_call J R prefix calls cs s ≡ (some true, run_all cs s)
  unfolding run_call
  run_call_answered calls cs s h =
      let answers = run_commands_answered calls.first cs s h in
      rw (answers, run_call) (ap (λ r. (some true, r.1)) answers)

  complete_gc_task-IsDone :
      (calls : Calls) (id : List ℕ) (s : R.Store)
      → IsAnswered calls
      → ((complete_gc_task J R prefix calls id s).0 ≡ some true)
        × IsDone id (complete_gc_task J R prefix calls id s).1
  unfolding complete_gc_task complete_commands run_all run_command
  complete_gc_task-IsDone calls id s h =
      let k = gc_task_key prefix id in
      let s₁ = (R.zrem (gc_inflight_key prefix) k s).1 in
      let done = run_call_answered calls (complete_commands J R prefix id) s h in
      (
        ap (λ r. r.0) done,
        subst (λ r. IsDone id r.1) (sym done)
            (record {
              deleted =
                  R.hget_hdel k k s₁ ∙ ap (λ b. if b then none else R.hget k s₁) (eq_bytes_refl k);
              released =
                  R.score_hdel _ k k s₁
                  ∙ inflight-zrem_inflight J R prefix k k s
                  ∙ ap (λ b. if b then none else inflight J R prefix k s) (eq_bytes_refl k);
            }),
      )

  reschedule_gc_task-IsWaiting :
      (calls : Calls) (task : GcTask) (s : R.Store)
      → IsAnswered calls
      → IsWaiting task (reschedule_gc_task J R prefix calls task s).1
  unfolding reschedule_gc_task reschedule_commands run_all run_command
  reschedule_gc_task-IsWaiting calls task s h =
      let k = gc_task_key prefix task.id in
      let s₁ = (R.zrem (gc_inflight_key prefix) k s).1 in
      let s₂ = R.hset k (J.serialize_task task) s₁ in
      let waiting =
        due-zadd_due J R prefix k k task.not_before s₂
        ∙ ap (λ b. if b then some task.not_before else due J R prefix k s₂) (eq_bytes_refl k) in
      let released =
        inflight-zadd_due J R prefix k k task.not_before s₂
        ∙ R.score_hset _ k k (J.serialize_task task) s₁
        ∙ inflight-zrem_inflight J R prefix k k s
        ∙ ap (λ b. if b then none else inflight J R prefix k s) (eq_bytes_refl k) in
      let done = run_call_answered calls (reschedule_commands J R prefix task) s h in
      subst (λ r. IsWaiting task r.1) (sym done)
        (record {
          payload = J.serialize_task task;
          written =
              R.hget_zadd k _ k task.not_before s₂
              ∙ R.hget_hset k k (J.serialize_task task) s₁
              ∙ ap (λ b. if b then some (J.serialize_task task) else R.hget k s₁) (eq_bytes_refl k);
          read = J.deserialize_task_lem task;
          waiting = waiting;
          released = released;
          early = λ now limit. elim (Bool-cases (leb_ℤ task.not_before now)) [
            | inl e ↦ inl e
            | inr late ↦
                inr (claim_due-early J R prefix now task.not_before limit k _ released waiting late)
          ];
        })

  module _ (D : Disks) (now : ℤ) (faults : Faults) (task : GcTask) where
    reschedule-IsWaiting :
        (w : World J R prefix D)
        → IsAnswered faults.rescheduling
        → IsWaiting (delayed now task) (reschedule J R prefix D now faults task w).store
    unfolding reschedule delayed
    reschedule-IsWaiting w e =
        reschedule_gc_task-IsWaiting faults.rescheduling (delayed now task) w.store e

    reschedule_disks :
        (w : World J R prefix D) → (reschedule J R prefix D now faults task w).disks ≡ w.disks
    unfolding reschedule
    reschedule_disks w = refl

    finish_failed :
        (s : R.Store) (r : Bool × D.State)
        → IsAnswered faults.rescheduling
        → r.0 ≡ false
        → ((finish J R prefix D now faults task s r).disks ≡ r.1)
          × IsWaiting (delayed now task) (finish J R prefix D now faults task s r).store
    unfolding reschedule
    finish_failed s (false, disks) e f =
        (refl, reschedule-IsWaiting (record { store = s; disks = disks }) e)
    finish_failed s (true, disks) e f = absurd (cc)

    finish_deleted :
        (s : R.Store) (r : Bool × D.State)
        → IsAnswered faults.completing
        → r.0 ≡ true
        → ((finish J R prefix D now faults task s r).disks ≡ r.1)
          × IsDone task.id (finish J R prefix D now faults task s r).store
    finish_deleted s (true, disks) e f =
        let (done, gone) = complete_gc_task-IsDone faults.completing task.id s e in
        rw (done, finish) (refl, gone)
    finish_deleted s (false, disks) e f = absurd (cc)

    -- A task whose key can be decoded, when the metadata service answers: if the key shows the version
    -- that the task retires, no disk changes and the task waits for its next attempt; otherwise the
    -- chunks of that version are deleted, and the task is done if every deletion succeeded, and waits
    -- for its next attempt if one failed.
    pub gc_task_lem :
        (key : ObjectKey) (current : Option BlockMeta) (w : World J R prefix D)
        → from_string_key task.key ≡ decoded key
        → faults.reading ≡ answered
        → IsAnswered faults.completing
        → IsAnswered faults.rescheduling
        → get_block J R prefix task.key w.store ≡ some current
        → ((is_current current task.retired ≡ true)
            × (((gc_task J R prefix D now faults task w).disks ≡ w.disks)
                × IsWaiting (delayed now task) (gc_task J R prefix D now faults task w).store))
          ⊎ (((is_current current task.retired ≡ false)
                × ((gc_task J R prefix D now faults task w).disks
                    ≡ (delete_distributed_chunks D
                        (placement_from_meta D.local task.retired)
                        w.disks).1))
              × (((delete_distributed_chunks D (placement_from_meta D.local task.retired) w.disks).0
                      ≡ true)
                    × IsDone task.id (gc_task J R prefix D now faults task w).store
                  ⊎ ((delete_distributed_chunks D
                        (placement_from_meta D.local task.retired)
                        w.disks).0
                      ≡ false)
                    × IsWaiting (delayed now task) (gc_task J R prefix D now faults task w).store))
    unfolding gc_task
    gc_task_lem key current w q reads completes reschedules shown =
        let e : read_current J R prefix D faults task w.store ≡ some current =
          ap (λ a. (attempt a (λ s. (get_block J R prefix task.key s, s)) w.store).0) reads
          ∙ shown in
        let r = delete_distributed_chunks D (placement_from_meta D.local task.retired) w.disks in
        elim (Bool-cases (is_current current task.retired)) [
          | inl f ↦
              inl
                (f, rw (q, e, f, gc_task) (reschedule_disks w, reschedule-IsWaiting w reschedules))
          | inr f ↦ elim (Bool-cases r.0) [
            | inl g ↦
                let (a, b) = finish_deleted w.store r completes g in
                inr ((f, rw (q, e, f, gc_task) a), inl (g, rw (q, e, f, gc_task) b))
            | inr g ↦
                let (a, b) = finish_failed w.store r reschedules g in
                inr ((f, rw (q, e, f, gc_task) a), inr (g, rw (q, e, f, gc_task) b))
          ]
        ]
