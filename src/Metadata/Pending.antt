-- ===== src/Metadata/Pending.antt =====
-- Over every interleaving of the commands of all clients, no task of reclamation is lost: a task that
-- is written down is due, in flight, or the object of a call that is still under way.
use context_store.Prelude.{
  ℕ, true, false, none, some, List, [], ◌∷◌, eq_bytes, eq_bytes→eq, eq_bytes_refl, if◌then◌else◌,
  ◌≡◌, ◌⊎◌, refl, All, ap, ◌∙◌, sym, subst, inl, inr, Bool-cases,
}
use context_store.Metadata.{GcTask}
use context_store.Metadata.Redis.{Redis, Json}
use context_store.Metadata.Backend.{gc_task_key}
use context_store.Metadata.Commands.{
  Command, release, erase, write, queue, run_command, complete_commands, reschedule_commands,
}
use context_store.Metadata.Sets.{
  due, inflight, due-zrem_inflight, due-zadd_due, inflight-zadd_due, inflight-zrem_inflight,
}
use context_store.Metadata.Tasks.{tracked, safe_due, same}
use context_store.Metadata.Steps.{Operation}
use context_store.Metadata.Retained.{Operation-IsSafe}

-- A call of `complete_gc_task` or of `reschedule_gc_task` that is under way: the key of its task, and
-- the commands that it has not sent.
pub record Call (Doc : Type 0) : Type 0 where
  pub key : List ℕ
  pub todo : List (Command Doc)

abbrev command_key : {Doc : Type 0} → Command Doc → List ℕ
command_key (release k) = k
command_key (erase k) = k
command_key (write k payload) = k
command_key (queue k not_before) = k

-- The last command of a call deletes the task or queues it.
abbrev IsLast : {Doc : Type 0} → Command Doc → Type 0
IsLast (release k) = ⊥
IsLast (erase k) = Unit {0}
IsLast (write k payload) = ⊥
IsLast (queue k not_before) = Unit {0}

abbrev IsEnding : {Doc : Type 0} → List ℕ → List (Command Doc) → Type 0
IsEnding key [] = ⊥
IsEnding key (c ∷ []) = (command_key c ≡ key) × IsLast c
IsEnding key (c ∷ d ∷ cs) = (command_key c ≡ key) × IsEnding key (d ∷ cs)

-- A call on the task at the key `k` is under way.
abbrev pub HasCall : {Doc : Type 0} → List ℕ → List (Call Doc) → Type 0
HasCall k [] = ⊥
HasCall k (call ∷ calls) = (call.key ≡ k) ⊎ HasCall k calls

module _ (J : Json) (R : Redis J.Doc) (prefix : List ℕ) where
  -- A worker begins to complete a task, or to put it back.
  pub data Begun : Call J.Doc → Type 0 where
    completing :
        (id : List ℕ)
        → Begun (record { key = gc_task_key prefix id; todo = complete_commands J R prefix id })
    rescheduling :
        (task : GcTask)
        → Begun (record {
          key = gc_task_key prefix task.id;
          todo = reschedule_commands J R prefix task;
        })

  -- One of the calls under way sends its next command; its last one ends it. After an error the call
  -- begins again, or the worker goes on with the other call on the same task, as after a task that
  -- could not be completed.
  pub data Sent (s : R.Store) : List (Call J.Doc) → R.Store → List (Call J.Doc) → Type 0 where
    one :
        (key : List ℕ) (c d : Command J.Doc) (cs : List (Command J.Doc)) (calls : List (Call J.Doc))
        → Sent s
            (record { key = key; todo = c ∷ d ∷ cs } ∷ calls)
            (run_command J R prefix c s)
            (record { key = key; todo = d ∷ cs } ∷ calls)
    last :
        (key : List ℕ) (c : Command J.Doc) (calls : List (Call J.Doc))
        → Sent s (record { key = key; todo = c ∷ [] } ∷ calls) (run_command J R prefix c s) calls
    again :
        (call new : Call J.Doc) (calls : List (Call J.Doc))
        → Begun new
        → new.key ≡ call.key
        → Sent s (call ∷ calls) s (new ∷ calls)
    later :
        {s' : R.Store} {calls calls' : List (Call J.Doc)} (call : Call J.Doc)
        → Sent s calls s' calls'
        → Sent s (call ∷ calls) s' (call ∷ calls')

  -- What the clients reach from the store `s`: its store, and the calls under way.
  pub data History (s : R.Store) : R.Store → List (Call J.Doc) → Type 0 where
    start : History s s []
    operated :
        {s₁ s₂ : R.Store} {calls : List (Call J.Doc)}
        → History s s₁ calls
        → Operation J R prefix s₁ s₂
        → History s s₂ calls
    began :
        {s₁ : R.Store} {calls : List (Call J.Doc)} (call : Call J.Doc)
        → History s s₁ calls
        → Begun call
        → History s s₁ (call ∷ calls)
    sent :
        {s₁ s₂ : R.Store} {calls calls' : List (Call J.Doc)}
        → History s s₁ calls
        → Sent s₁ calls s₂ calls'
        → History s s₂ calls'

  Begun-IsEnding : (call : Call J.Doc) → Begun call → IsEnding call.key call.todo
  unfolding complete_commands reschedule_commands
  Begun-IsEnding _ (completing id) = (refl, (refl, tt))
  Begun-IsEnding _ (rescheduling task) = (refl, (refl, (refl, tt)))

  module _ (k : List ℕ) where
    -- A command on another task.
    command-other :
        (c : Command J.Doc) (s : R.Store)
        → eq_bytes (command_key c) k ≡ false
        → tracked J R prefix k (run_command J R prefix c s) ≡ tracked J R prefix k s
    unfolding run_command
    command-other (release j) s e =
        same J R prefix k (R.hget_zrem k _ j s) (due-zrem_inflight J R prefix k j s) (
          inflight-zrem_inflight J R prefix k j s
          ∙ ap (λ b. if b then none else inflight J R prefix k s) e)
    command-other (erase j) s e =
        same J R prefix k (R.hget_hdel k j s ∙ ap (λ b. if b then none else R.hget k s) e)
          (R.score_hdel _ k j s) (R.score_hdel _ k j s)
    command-other (write j d) s e =
        same J R prefix k (R.hget_hset k j d s ∙ ap (λ b. if b then some d else R.hget k s) e)
          (R.score_hset _ k j d s) (R.score_hset _ k j d s)
    command-other (queue j x) s e =
        same J R prefix k (R.hget_zadd k _ j x s)
          (due-zadd_due J R prefix k j x s ∙ ap (λ b. if b then some x else due J R prefix k s) e)
          (inflight-zadd_due J R prefix k j x s)

    command_last :
        (c : Command J.Doc) (s : R.Store)
        → command_key c ≡ k
        → IsLast c
        → tracked J R prefix k (run_command J R prefix c s) ≡ true
    unfolding run_command
    command_last (release j) s e h = absurd h
    command_last (erase j) s e h =
        same J R prefix k
          (R.hget_hdel k j s
            ∙ ap (λ b. if b then none else R.hget k s)
                (subst (λ i. eq_bytes j i ≡ true) e (eq_bytes_refl j)))
          refl refl
    command_last (write j d) s e h = absurd h
    command_last (queue j x) s e h =
        same J R prefix k refl
          (due-zadd_due J R prefix k j x s
            ∙ ap (λ b. if b then some x else due J R prefix k s)
                (subst (λ i. eq_bytes j i ≡ true) e (eq_bytes_refl j)))
          refl
        ∙ safe_due _ x _

    -- The task at `k` is safe: it is not written, it is due or in flight, or a call on it is under
    -- way.
    abbrev IsKept : R.Store → List (Call J.Doc) → Type 0
    IsKept s calls = (tracked J R prefix k s ≡ true) ⊎ HasCall k calls

    abbrev AllEnding : List (Call J.Doc) → Type 0
    AllEnding calls = All (λ call. IsEnding call.key call.todo) calls

    same_key : (a b : List ℕ) → (a ≡ b) ⊎ (eq_bytes a b ≡ false)
    same_key a b = elim (Bool-cases (eq_bytes a b)) [
      | inl e ↦ inl (eq_bytes→eq a b e)
      | inr e ↦ inr e
    ]

    Sent-AllEnding :
        {s s' : R.Store} {calls calls' : List (Call J.Doc)}
        → AllEnding calls
        → Sent s calls s' calls'
        → AllEnding calls'
    Sent-AllEnding h (one key c d cs calls) = (h.0.1, h.1)
    Sent-AllEnding h (last key c calls) = h.1
    Sent-AllEnding h (again call new calls b e) = (Begun-IsEnding new b, h.1)
    Sent-AllEnding h (later call u) = (h.0, Sent-AllEnding h.1 u)

    IsKept-later :
        (call : Call J.Doc) (s : R.Store) (calls : List (Call J.Doc))
        → IsKept s calls
        → IsKept s (call ∷ calls)
    IsKept-later call s calls (inl t) = inl t
    IsKept-later call s calls (inr m) = inr (inr m)

    Sent-IsKept :
        {s s' : R.Store} {calls calls' : List (Call J.Doc)}
        → AllEnding calls
        → IsKept s calls
        → Sent s calls s' calls'
        → IsKept s' calls'
    Sent-IsKept h (inr m) (one key c d cs calls) = inr m
    Sent-IsKept {s = s} h (inl t) (one key c d cs calls) = elim (same_key key k) [
      | inl e ↦ inr (inl e)
      | inr n ↦ inl (command-other c s (subst (λ i. eq_bytes i k ≡ false) (sym h.0.0) n) ∙ t)
    ]
    Sent-IsKept h (inr (inr m)) (last key c calls) = inr m
    Sent-IsKept {s = s} h (inr (inl e)) (last key c calls) =
        inl (command_last c s (h.0.0 ∙ e) h.0.1)
    Sent-IsKept {s = s} h (inl t) (last key c calls) = elim (same_key key k) [
      | inl e ↦ inl (command_last c s (h.0.0 ∙ e) h.0.1)
      | inr n ↦ inl (command-other c s (subst (λ i. eq_bytes i k ≡ false) (sym h.0.0) n) ∙ t)
    ]
    Sent-IsKept h (inl t) (again call new calls b e) = inl t
    Sent-IsKept h (inr (inl p)) (again call new calls b e) = inr (inl (e ∙ p))
    Sent-IsKept h (inr (inr m)) (again call new calls b e) = inr (inr m)
    Sent-IsKept h (inl t) (later call u) = IsKept-later call _ _ (Sent-IsKept h.1 (inl t) u)
    Sent-IsKept h (inr (inl p)) (later call u) = inr (inl p)
    Sent-IsKept h (inr (inr m)) (later call u) = IsKept-later call _ _ (Sent-IsKept h.1 (inr m) u)

    History-AllEnding :
        {s s' : R.Store} {calls : List (Call J.Doc)} → History s s' calls → AllEnding calls
    History-AllEnding start = tt
    History-AllEnding (operated h o) = History-AllEnding h
    History-AllEnding (began call h b) = (Begun-IsEnding call b, History-AllEnding h)
    History-AllEnding (sent h u) = Sent-AllEnding (History-AllEnding h) u

    operated-IsKept :
        {s s' : R.Store} (calls : List (Call J.Doc))
        → Operation J R prefix s s'
        → IsKept s calls
        → IsKept s' calls
    operated-IsKept calls o (inl t) = inl (Operation-IsSafe J R prefix k t o)
    operated-IsKept calls o (inr m) = inr m

    -- From a store in which the key `k` holds no task, or one that is due or in flight, whatever
    -- operations clients make, with generations below 2 ^ 53, and in whatever order their commands
    -- come, as long as no worker gives up in the middle of completing a task or of putting it back
    -- (after an error it begins again, with either of the two): the key `k` holds no task, or one that
    -- is due or in flight, or a call on that task is under way.
    pub History-tracked :
        (s s' : R.Store) (calls : List (Call J.Doc))
        → tracked J R prefix k s ≡ true
        → History s s' calls
        → (tracked J R prefix k s' ≡ true) ⊎ HasCall k calls
    History-tracked s _ _ t start = inl t
    History-tracked s s' calls t (operated {s₁ = s₁} h o) =
        operated-IsKept calls o (History-tracked s s₁ calls t h)
    History-tracked s s' _ t (began {calls = calls} call h b) =
        IsKept-later call s' calls (History-tracked s s' calls t h)
    History-tracked s s' _ t (sent {s₁ = s₁} {calls = calls} h u) =
        Sent-IsKept (History-AllEnding h) (History-tracked s s₁ calls t h) u
