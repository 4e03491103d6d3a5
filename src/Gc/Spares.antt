-- ===== src/Gc/Spares.antt =====
-- What the worker deletes.
use context_store.Prelude.{
  ℕ, Bool, true, false, Option, none, some, List, [], ◌∷◌, ◌≡◌, ◌⊎◌, refl, ◌∙◌, subst, inl, inr,
  Bool-cases, Option-cases, sym,
}
use context_store.Prelude.Int.{ℤ}
use context_store.Metadata.{BlockMeta, GcTask}
use context_store.Metadata.Redis.{Redis, Json}
use context_store.Metadata.Backend.{
  Attempt, refused, lost, answered, attempt, get_block, take_due_gc_tasks,
}
use context_store.Router.{from_string_key}
use context_store.Gc.{
  Faults, World, is_current, reschedule, complete, finish, read_current, gc_task, gc_tasks,
  run_gc_once,
}
use context_store.Gc.Chunks.{Disks, placement_from_meta, delete_distributed_chunks}
use context_store.Gc.Steps.{
  Worked-get_block, gc_task-Worked, run_gc_once-Worked, take-Worked, KeyResult-cases,
}

module _ (J : Json) (R : Redis J.Doc) (prefix : List ℕ) (D : Disks) where
  -- What the worker did to the disks for a list of tasks, one after the other: for each one nothing,
  -- or it deleted the chunks of the version that the task retires, which the key of the task does not
  -- show in the store `s`.
  pub data Reclaimed (s : R.Store) : List GcTask → D.State → D.State → Type 0 where
    nothing : (disks : D.State) → Reclaimed s [] disks disks
    kept :
        {tasks : List GcTask} {disks disks' : D.State} (task : GcTask)
        → Reclaimed s tasks disks disks'
        → Reclaimed s (task ∷ tasks) disks disks'
    version :
        {tasks : List GcTask} {disks' : D.State} (task : GcTask) (current : Option BlockMeta)
        (disks : D.State)
        → get_block J R prefix task.key s ≡ some current
        → is_current current task.retired ≡ false
        → Reclaimed s tasks
            (delete_distributed_chunks D (placement_from_meta D.local task.retired) disks).1
            disks'
        → Reclaimed s (task ∷ tasks) disks disks'

  -- The tasks of a claim, none if it failed.
  abbrev pub taken : Option (List GcTask) → List GcTask
  taken none = []
  taken (some tasks) = tasks

  finish-disks :
      (now : ℤ) (faults : Faults) (task : GcTask) (s : R.Store) (r : Bool × D.State)
      → (finish J R prefix D now faults task s r).disks ≡ r.1
  unfolding reschedule
  finish-disks now faults task s (false, disks) = refl
  finish-disks now faults task s (true, disks) =
      elim (Option-cases (complete J R prefix D faults task s).0) [
        | inl e ↦ rw (e, finish)
        | inr (b, e) ↦ rw (e, finish)
      ]

  attempt-some :
      {A : Type 0} (a : Attempt) (f : R.Store → Option A) (s : R.Store) (x : A)
      → (attempt a (λ s'. (f s', s')) s).0 ≡ some x
      → f s ≡ some x
  attempt-some refused f s x h = absurd (cc)
  attempt-some lost f s x h = absurd (cc)
  attempt-some answered f s x h = h

  -- One task changes nothing on the disks, or deletes the version, which is not shown.
  gc_task_disks :
      (now : ℤ) (faults : Faults) (task : GcTask) (w : World J R prefix D)
      → ((gc_task J R prefix D now faults task w).disks ≡ w.disks)
        ⊎ ((current : Option BlockMeta) × (get_block J R prefix task.key w.store ≡ some current)
            × (is_current current task.retired ≡ false)
            × ((gc_task J R prefix D now faults task w).disks
                ≡ (delete_distributed_chunks D
                    (placement_from_meta D.local task.retired)
                    w.disks).1))
  unfolding gc_task reschedule
  gc_task_disks now faults task w = elim (KeyResult-cases (from_string_key task.key)) [
    | inr (e, q) ↦ inl (rw (q, gc_task) refl)
    | inl (key, q) ↦ elim (Option-cases (read_current J R prefix D faults task w.store)) [
      | inl e ↦ inl (rw (q, e, gc_task) refl)
      | inr (current, e) ↦ elim (Bool-cases (is_current current task.retired)) [
        | inl f ↦ inl (rw (q, e, f, gc_task) refl)
        | inr f ↦ inr (
          current,
          attempt-some faults.reading (get_block J R prefix task.key) w.store current e,
          f,
          rw (q, e, f, gc_task) (finish-disks now faults task w.store _),
        )
      ]
    ]
  ]

  -- What was not shown before other steps of the worker is not shown after them.
  Reclaimed-before :
      {s s' : R.Store} {tasks : List GcTask} {d d' : D.State}
      → ((key : List ℕ) → get_block J R prefix key s' ≡ get_block J R prefix key s)
      → Reclaimed s' tasks d d'
      → Reclaimed s tasks d d'
  Reclaimed-before h (nothing d) = nothing d
  Reclaimed-before h (kept task u) = kept task (Reclaimed-before h u)
  Reclaimed-before h (version task current d e f u) =
      version task current d (sym (h task.key) ∙ e) f (Reclaimed-before h u)

  gc_tasks-Reclaimed :
      (now : ℤ) (faults : List ℕ → Faults) (tasks : List GcTask) (w : World J R prefix D)
      → Reclaimed w.store tasks w.disks (gc_tasks J R prefix D now faults tasks w).disks
  unfolding gc_tasks
  gc_tasks-Reclaimed now faults [] w = nothing w.disks
  gc_tasks-Reclaimed now faults (task ∷ tasks) w =
      let w₁ = gc_task J R prefix D now (faults task.id) task w in
      let rest =
        Reclaimed-before
          (λ key.
            Worked-get_block J R prefix key
              (gc_task-Worked J R prefix D now (faults task.id) task w))
          (gc_tasks-Reclaimed now faults tasks w₁) in
      elim (gc_task_disks now (faults task.id) task w) [
        | inl p ↦ kept task (
            subst (λ d. Reclaimed w.store tasks d (gc_tasks J R prefix D now faults tasks w₁).disks)
              p rest)
        | inr (current, e, f, p) ↦ version task current w.disks e f (
            subst (λ d. Reclaimed w.store tasks d (gc_tasks J R prefix D now faults tasks w₁).disks)
              p rest)
      ]

  -- Whatever calls fail, before or after they are executed: a run of the worker takes the tasks that
  -- its claim returned, one after the other, and for each changes nothing on the disks, or deletes the
  -- chunks of the version that this task retires, where the task's key did not show that version when
  -- the run began. No key shows anything else afterwards.
  pub run_gc_once-Reclaimed :
      (now : ℤ) (limit lease_seconds : ℕ) (claiming : Attempt) (faults : List ℕ → Faults)
      (w : World J R prefix D)
      → Reclaimed w.store
          (taken
            (attempt claiming (take_due_gc_tasks J R prefix now limit lease_seconds) w.store).0)
          w.disks
          (run_gc_once J R prefix D now limit lease_seconds claiming faults w).disks
        × ((key : List ℕ)
            → get_block J R prefix key
                (run_gc_once J R prefix D now limit lease_seconds claiming faults w).store
              ≡ get_block J R prefix key w.store)
  unfolding run_gc_once
  run_gc_once-Reclaimed now limit lease_seconds claiming faults w = (
    elim (Option-cases
        (attempt claiming (take_due_gc_tasks J R prefix now limit lease_seconds) w.store).0) [
          | inl e ↦ rw (e, run_gc_once) (nothing w.disks)
          | inr (tasks, e) ↦
              rw (e, run_gc_once)
                (Reclaimed-before
                  (λ key.
                    Worked-get_block J R prefix key
                      (take-Worked J R prefix D now limit lease_seconds claiming w.store))
                  (gc_tasks-Reclaimed now faults tasks _))
        ],
    λ key.
        Worked-get_block J R prefix key
          (run_gc_once-Worked J R prefix D now limit lease_seconds claiming faults w),
  )
