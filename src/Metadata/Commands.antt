-- ===== src/Metadata/Commands.antt =====
-- `complete_gc_task` and `reschedule_gc_task` of kv-service/server/src/metadata.rs. Each sends several
-- commands to Redis, one after the other and in no transaction: any of them may fail, and other
-- clients may be served between two of them.
use context_store.Prelude.{ℕ, suc, Bool, true, Option, none, some, List, [], ◌∷◌, if◌then◌else◌}
use context_store.Prelude.Int.{ℤ}
use context_store.Metadata.{GcTask}
use context_store.Metadata.Redis.{Redis, Json}
use context_store.Metadata.Backend.{Attempt, attempt, gc_due_key, gc_inflight_key, gc_task_key}

-- The commands, each with the key of a task: ZREM from those in flight, DEL of the task, HSET of its
-- payload, ZADD to those that are due.
pub data Command (Doc : Type 0) : Type 0 where
  release erase : List ℕ → Command Doc
  write : List ℕ → Doc → Command Doc
  queue : List ℕ → ℤ → Command Doc

-- What the network does to the commands of a call, by their position: in the first attempt, and in
-- the second one, if there is a new connection for it.
pub record Calls : Type 0 where
  pub first : ℕ → Attempt
  pub reconnects : Bool
  pub second : ℕ → Attempt

module _ (J : Json) (R : Redis J.Doc) (prefix : List ℕ) where
  unfoldable pub run_command : Command J.Doc → R.Store → R.Store
  run_command (release k) s = (R.zrem (gc_inflight_key prefix) k s).1
  run_command (erase k) s = R.hdel k s
  run_command (write k payload) s = R.hset k payload s
  run_command (queue k not_before) s = R.zadd (gc_due_key prefix) not_before k s

  -- `?` after a command
  abbrev pub then_rest :
      Option Bool × R.Store → (R.Store → Option Bool × R.Store) → Option Bool × R.Store
  then_rest (none, s) rest = (none, s)
  then_rest (some b, s) rest = rest s

  -- The closure: the first error ends it, and keeps what was done before.
  unfoldable pub run_commands :
      (ℕ → Attempt) → List (Command J.Doc) → R.Store → Option Bool × R.Store
  unfolding run_command
  run_commands net [] s = (some true, s)
  run_commands net (c ∷ cs) s =
      then_rest (attempt (net 0) (λ s₁. (some true, run_command c s₁)) s)
        (λ s₁. run_commands (λ n. net (suc n)) cs s₁)

  -- `run_with_reconnect` of the closure: after an error it begins again, once.
  unfoldable pub run_call : Calls → List (Command J.Doc) → R.Store → Option Bool × R.Store
  unfolding run_commands
  run_call calls cs s =
      let (r, s₁) = run_commands calls.first cs s in
      elim r [
        | some b ↦ (some b, s₁)
        | none ↦ if calls.reconnects then run_commands calls.second cs s₁ else (none, s₁)
      ]

  unfoldable pub complete_commands : List ℕ → List (Command J.Doc)
  complete_commands task_id =
      let task_key = gc_task_key prefix task_id in release task_key ∷ erase task_key ∷ []

  unfoldable pub reschedule_commands : GcTask → List (Command J.Doc)
  reschedule_commands task =
      let task_key = gc_task_key prefix task.id in
      release task_key
      ∷ write task_key (J.serialize_task task)
      ∷ queue task_key task.not_before
      ∷ []

  unfoldable pub complete_gc_task : Calls → List ℕ → R.Store → Option Bool × R.Store
  unfolding run_call complete_commands
  complete_gc_task calls task_id s = run_call calls (complete_commands task_id) s

  unfoldable pub reschedule_gc_task : Calls → GcTask → R.Store → Option Bool × R.Store
  unfolding run_call reschedule_commands
  reschedule_gc_task calls task s = run_call calls (reschedule_commands task) s
