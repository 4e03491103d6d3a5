-- ===== src/Metadata/Strings.antt =====
-- The queue of tasks leaves the metadata and the counters, which are strings, alone.
use context_store.Prelude.{
  ℕ, Bool, true, false, List, [], ◌∷◌, ◌≡◌, refl, ◌∙◌, inl, inr, Option-cases,
}
use context_store.Prelude.Int.{ℤ, ◌+ℤ◌, pos}
use context_store.Metadata.Redis.{Redis, Json}
use context_store.Metadata.Backend.{
  gc_inflight_key, requeue, requeue_expired, requeued, leased, claim, claim_due, take_due_gc_tasks,
  task_keys,
}
use context_store.Metadata.Commands.{Command, release, erase, write, queue, run_command}

module _ (J : Json) (R : Redis J.Doc) (prefix : List ℕ) (j : List ℕ) where
  get-requeued :
      (now : ℤ) (k : List ℕ) (p : Bool × R.Store)
      → R.get j (requeued J R prefix now k p) ≡ R.get j p.1
  get-requeued now k (true, s) = R.get_zadd _ _ _ now s
  get-requeued now k (false, s) = refl

  get-requeue :
      (now : ℤ) (ks : List (List ℕ)) (s : R.Store)
      → R.get j (requeue J R prefix now ks s) ≡ R.get j s
  unfolding requeue
  get-requeue now [] s = refl
  get-requeue now (k ∷ ks) s = get-requeue now ks _ ∙ get-requeued now k _ ∙ R.get_zrem _ _ k s

  get-leased :
      (until : ℤ) (k : List ℕ) (p : Bool × R.Store)
      → R.get j (leased J R prefix until k p).1 ≡ R.get j p.1
  get-leased until k (false, s) = refl
  get-leased until k (true, s) = elim (Option-cases (R.hget k s)) [
    | inl e ↦ rw (e, leased)
    | inr (d, e) ↦ rw (e, leased) (R.get_zadd _ _ k until s)
  ]

  get-claim :
      (until : ℤ) (ks : List (List ℕ)) (s : R.Store)
      → R.get j (claim J R prefix until ks s).1 ≡ R.get j s
  unfolding claim
  get-claim until [] s = refl
  get-claim until (k ∷ ks) s = get-claim until ks _ ∙ get-leased until k _ ∙ R.get_zrem _ _ k s

  pub get-take_due_gc_tasks :
      (now : ℤ) (limit lease_seconds : ℕ) (s : R.Store)
      → R.get j (take_due_gc_tasks J R prefix now limit lease_seconds s).1 ≡ R.get j s
  unfolding take_due_gc_tasks claim_due requeue_expired
  get-take_due_gc_tasks now limit lease_seconds s =
      get-claim (now +ℤ pos lease_seconds)
        (task_keys J R prefix now limit (requeue_expired J R prefix now s)) _
      ∙ get-requeue now (R.zrangebyscore (gc_inflight_key prefix) now s) s

  pub get-run_command :
      (command : Command J.Doc) (s : R.Store)
      → R.get j (run_command J R prefix command s) ≡ R.get j s
  unfolding run_command
  get-run_command (release k) s = R.get_zrem j _ k s
  get-run_command (erase k) s = R.get_hdel j k s
  get-run_command (write k payload) s = R.get_hset j k payload s
  get-run_command (queue k not_before) s = R.get_zadd j _ k not_before s
