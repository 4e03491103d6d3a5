-- ===== src/Gc/Steps.antt =====
-- The worker only takes tasks and sends the commands that complete them and put them back, whatever
-- the network does to each.
use context_store.Prelude.{
  ℕ, suc, ◌⊎◌, Bool, true, false, Option, some, List, [], ◌∷◌, ◌≡◌, refl, ap, ◌∙◌, inl, inr,
  Bool-cases, Option-cases,
}
use context_store.Prelude.Int.{ℤ}
use context_store.Metadata.{GcTask}
use context_store.Metadata.Redis.{Redis, Json}
use context_store.Metadata.Backend.{
  Attempt, refused, lost, answered, attempt, get_block, read_old, take_due_gc_tasks,
}
use context_store.Metadata.Commands.{
  Command, Calls, then_rest, complete_commands, reschedule_commands, run_command, run_commands,
  run_call, complete_gc_task, reschedule_gc_task,
}
use context_store.Metadata.Strings.{get-take_due_gc_tasks, get-run_command}
use context_store.Router.{ObjectKey, from_string_key, KeyResult, KeyError, decoded, invalid}
use context_store.Gc.{
  Faults, World, is_current, delayed, reschedule, complete, finish, read_current, gc_task, gc_tasks,
  run_gc_once,
}
use context_store.Gc.Chunks.{Disks}

pub KeyResult-cases :
    (r : KeyResult) → ((key : ObjectKey) × (r ≡ decoded key)) ⊎ ((e : KeyError) × (r ≡ invalid e))
KeyResult-cases (decoded key) = inl (key, refl)
KeyResult-cases (invalid e) = inr (e, refl)

module _ (J : Json) (R : Redis J.Doc) (prefix : List ℕ) where
  pub data Worked : R.Store → R.Store → Type 0 where
    idle : (s : R.Store) → Worked s s
    took :
        {s' : R.Store} (now : ℤ) (limit lease_seconds : ℕ) (s : R.Store)
        → Worked (take_due_gc_tasks J R prefix now limit lease_seconds s).1 s'
        → Worked s s'
    commanded :
        {s' : R.Store} (command : Command J.Doc) (s : R.Store)
        → Worked (run_command J R prefix command s) s'
        → Worked s s'

  Worked-append : {s s₁ s₂ : R.Store} → Worked s s₁ → Worked s₁ s₂ → Worked s s₂
  Worked-append (idle s) v = v
  Worked-append (took now limit lease s u) v = took now limit lease s (Worked-append u v)
  Worked-append (commanded command s u) v = commanded command s (Worked-append u v)

  -- None of it changes what a key shows.
  pub Worked-get_block :
      {s s' : R.Store} (key : List ℕ)
      → Worked s s'
      → get_block J R prefix key s' ≡ get_block J R prefix key s
  unfolding get_block
  Worked-get_block key (idle s) = refl
  Worked-get_block key (took now limit lease s u) =
      Worked-get_block key u
      ∙ ap (read_old J R prefix) (get-take_due_gc_tasks J R prefix _ now limit lease s)
  Worked-get_block key (commanded command s u) =
      Worked-get_block key u ∙ ap (read_old J R prefix) (get-run_command J R prefix _ command s)

  attempt-Worked :
      {A : Type 0} (a : Attempt) (command : R.Store → Option A × R.Store) (s : R.Store)
      → Worked s (command s).1
      → Worked s (attempt a command s).1
  attempt-Worked refused command s u = idle s
  attempt-Worked lost command s u = u
  attempt-Worked answered command s u = u

  command-Worked :
      (a : Attempt) (c : Command J.Doc) (rest : R.Store → Option Bool × R.Store) (s : R.Store)
      → ((s₁ : R.Store) → Worked s₁ (rest s₁).1)
      → Worked s
          (then_rest J R prefix
            (attempt a (λ s₁. (some true, run_command J R prefix c s₁)) s)
            rest).1
  command-Worked refused c rest s h = idle s
  command-Worked lost c rest s h = commanded c s (idle _)
  command-Worked answered c rest s h = commanded c s (h _)

  -- Whichever commands of a call fail.
  run_commands-Worked :
      (net : ℕ → Attempt) (commands : List (Command J.Doc)) (s : R.Store)
      → Worked s (run_commands J R prefix net commands s).1
  unfolding run_commands
  run_commands-Worked net [] s = idle s
  run_commands-Worked net (c ∷ cs) s =
      command-Worked (net 0) c _ s (run_commands-Worked (λ n. net (suc n)) cs)

  run_call-Worked :
      (calls : Calls) (commands : List (Command J.Doc)) (s : R.Store)
      → Worked s (run_call J R prefix calls commands s).1
  unfolding run_call
  run_call-Worked calls commands s =
      elim (Option-cases (run_commands J R prefix calls.first commands s).0) [
        | inr (b, e) ↦ rw (e, run_call) (run_commands-Worked calls.first commands s)
        | inl e ↦ elim (Bool-cases calls.reconnects) [
          | inl r ↦
              rw (e, r, run_call)
                (Worked-append (run_commands-Worked calls.first commands s)
                  (run_commands-Worked calls.second commands _))
          | inr r ↦ rw (e, r, run_call) (run_commands-Worked calls.first commands s)
        ]
      ]

  module _ (D : Disks) (now : ℤ) where
    reschedule-Worked :
        (faults : Faults) (task : GcTask) (w : World J R prefix D)
        → Worked w.store (reschedule J R prefix D now faults task w).store
    unfolding reschedule reschedule_gc_task
    reschedule-Worked faults task w =
        run_call-Worked faults.rescheduling (reschedule_commands J R prefix (delayed now task))
          w.store

    complete-Worked :
        (faults : Faults) (task : GcTask) (s : R.Store)
        → Worked s (complete J R prefix D faults task s).1
    unfolding complete_gc_task
    complete-Worked faults task s =
        run_call-Worked faults.completing (complete_commands J R prefix task.id) s

    finish-Worked :
        (faults : Faults) (task : GcTask) (s : R.Store) (r : Bool × D.State)
        → Worked s (finish J R prefix D now faults task s r).store
    finish-Worked faults task s (false, disks) =
        reschedule-Worked faults task (record { store = s; disks = disks })
    finish-Worked faults task s (true, disks) =
        elim (Option-cases (complete J R prefix D faults task s).0) [
          | inl e ↦
              rw (e, finish)
                (Worked-append (complete-Worked faults task s) (reschedule-Worked faults task _))
          | inr (b, e) ↦ rw (e, finish) (complete-Worked faults task s)
        ]

    pub gc_task-Worked :
        (faults : Faults) (task : GcTask) (w : World J R prefix D)
        → Worked w.store (gc_task J R prefix D now faults task w).store
    unfolding gc_task
    gc_task-Worked faults task w = elim (KeyResult-cases (from_string_key task.key)) [
      | inr (e, q) ↦ rw (q, gc_task) (complete-Worked faults task w.store)
      | inl (key, q) ↦ elim (Option-cases (read_current J R prefix D faults task w.store)) [
        | inl e ↦ rw (q, e, gc_task) (reschedule-Worked faults task w)
        | inr (current, e) ↦ elim (Bool-cases (is_current current task.retired)) [
          | inl f ↦ rw (q, e, f, gc_task) (reschedule-Worked faults task w)
          | inr f ↦ rw (q, e, f, gc_task) (finish-Worked faults task w.store _)
        ]
      ]
    ]

    gc_tasks-Worked :
        (faults : List ℕ → Faults) (tasks : List GcTask) (w : World J R prefix D)
        → Worked w.store (gc_tasks J R prefix D now faults tasks w).store
    unfolding gc_tasks
    gc_tasks-Worked faults [] w = idle w.store
    gc_tasks-Worked faults (task ∷ tasks) w =
        Worked-append (gc_task-Worked (faults task.id) task w) (gc_tasks-Worked faults tasks _)

    pub take-Worked :
        (limit lease_seconds : ℕ) (claiming : Attempt) (s : R.Store)
        → Worked s (attempt claiming (take_due_gc_tasks J R prefix now limit lease_seconds) s).1
    take-Worked limit lease_seconds claiming s =
        attempt-Worked claiming (take_due_gc_tasks J R prefix now limit lease_seconds) s
          (took now limit lease_seconds s (idle _))

    pub run_gc_once-Worked :
        (limit lease_seconds : ℕ) (claiming : Attempt) (faults : List ℕ → Faults)
        (w : World J R prefix D)
        → Worked w.store (run_gc_once J R prefix D now limit lease_seconds claiming faults w).store
    unfolding run_gc_once
    run_gc_once-Worked limit lease_seconds claiming faults w =
        elim (Option-cases
          (attempt claiming (take_due_gc_tasks J R prefix now limit lease_seconds) w.store).0) [
            | inl e ↦ rw (e, run_gc_once) (take-Worked limit lease_seconds claiming w.store)
            | inr (tasks, e) ↦
                rw (e, run_gc_once)
                  (Worked-append (take-Worked limit lease_seconds claiming w.store)
                    (gc_tasks-Worked faults tasks _))
          ]
