-- ===== src/Metadata/Retained.antt =====
-- No operation that is one command or one script loses a task of reclamation.
use context_store.Prelude.{ℕ, true, false, List, ◌≡◌, ◌∙◌, inl, inr, Bool-cases, Option-cases}
use context_store.Prelude.Int.{ℤ}
use context_store.Metadata.{BlockMeta}
use context_store.Metadata.Redis.{Redis, Json}
use context_store.Metadata.Backend.{
  replace_script, retire_script, block_key, generation_key, gc_task_key, put_block,
  put_block_if_absent, replace_block, retire_block, retire_block_if_matches, delete_block,
  delete_block_if_matches, next_generation, enqueue_gc, counter,
}
use context_store.Metadata.Tasks.{
  tracked, tracked-set, tracked-del, tracked-hset, tracked-take_due_gc_tasks,
}
use context_store.Metadata.Steps.{
  Operation, putting, putting_if_absent, replacing, retiring, retiring_if_matches, deleting,
  deleting_if_matches, counting, taking,
}

module _ (J : Json) (R : Redis J.Doc) (prefix : List ℕ) (k : List ℕ) where
  -- The key `k` is safe in a store: if a task is written there, it is due or in flight.
  abbrev IsSafe : R.Store → Type 0
  IsSafe s = tracked J R prefix k s ≡ true

  set-IsSafe : (j : List ℕ) (d : J.Doc) (s : R.Store) → IsSafe s → IsSafe (R.set j d s)
  set-IsSafe j d s h = tracked-set J R prefix k j d s ∙ h

  del-IsSafe : (j : List ℕ) (s : R.Store) → IsSafe s → IsSafe (R.del j s)
  del-IsSafe j s h = tracked-del J R prefix k j s ∙ h

  enqueue_gc-IsSafe :
      (j : List ℕ) (old : J.Doc) (t : ℤ) (s : R.Store)
      → IsSafe s
      → IsSafe (enqueue_gc J R prefix j old t s).1
  unfolding enqueue_gc
  enqueue_gc-IsSafe j old t s h =
      elim (Option-cases (J.lua_task (J.sha1hex (block_key prefix j) old) j old t)) [
        | inl e ↦ rw (e, enqueue_gc) h
        | inr (task, e) ↦
            rw (e, enqueue_gc)
              (tracked-hset J R prefix k (gc_task_key prefix (J.sha1hex (block_key prefix j) old))
                task t s h)
      ]

  put_block_if_absent-IsSafe :
      (j : List ℕ) (meta : BlockMeta) (s : R.Store)
      → IsSafe s
      → IsSafe (put_block_if_absent J R prefix j meta s).1
  unfolding put_block_if_absent
  put_block_if_absent-IsSafe j meta s h = elim (Option-cases (R.get (block_key prefix j) s)) [
    | inl e ↦ rw (e, put_block_if_absent) (set-IsSafe _ (J.serialize meta) s h)
    | inr (old, e) ↦ rw (e, put_block_if_absent) h
  ]

  replace_block-IsSafe :
      (j : List ℕ) (meta : BlockMeta) (t : ℤ) (s : R.Store)
      → IsSafe s
      → IsSafe (replace_block J R prefix j meta t s).1
  unfolding replace_block
  replace_block-IsSafe j meta t s h = elim (Option-cases (R.get (block_key prefix j) s)) [
    | inl e ↦ rw (e, replace_block, replace_script) (set-IsSafe _ (J.serialize meta) s h)
    | inr (old, e) ↦
        rw (e, replace_block, replace_script)
          (enqueue_gc-IsSafe j old t _ (set-IsSafe _ (J.serialize meta) s h))
  ]

  retire_block-IsSafe :
      (j : List ℕ) (t : ℤ) (s : R.Store) → IsSafe s → IsSafe (retire_block J R prefix j t s).1
  unfolding retire_block
  retire_block-IsSafe j t s h = elim (Option-cases (R.get (block_key prefix j) s)) [
    | inl e ↦ rw (e, retire_block, retire_script) h
    | inr (old, e) ↦
        rw (e, retire_block, retire_script) (enqueue_gc-IsSafe j old t _ (del-IsSafe _ s h))
  ]

  retire_block_if_matches-IsSafe :
      (j : List ℕ) (expected : BlockMeta) (t : ℤ) (s : R.Store)
      → IsSafe s
      → IsSafe (retire_block_if_matches J R prefix j expected t s).1
  unfolding retire_block_if_matches
  retire_block_if_matches-IsSafe j expected t s h =
      elim (Option-cases (R.get (block_key prefix j) s)) [
        | inl e ↦ rw (e, retire_block_if_matches) h
        | inr (old, e) ↦ elim (Option-cases (J.lua_same_version old (J.serialize expected))) [
          | inl f ↦ rw (e, f, retire_block_if_matches) h
          | inr (true, f) ↦
              rw (e, f, retire_block_if_matches) (enqueue_gc-IsSafe j old t _ (del-IsSafe _ s h))
          | inr (false, f) ↦ rw (e, f, retire_block_if_matches) h
        ]
      ]

  delete_block_if_matches-IsSafe :
      (j : List ℕ) (expected : BlockMeta) (s : R.Store)
      → IsSafe s
      → IsSafe (delete_block_if_matches J R prefix j expected s).1
  unfolding delete_block_if_matches
  delete_block_if_matches-IsSafe j expected s h =
      elim (Option-cases (R.get (block_key prefix j) s)) [
        | inl e ↦ rw (e, delete_block_if_matches) h
        | inr (old, e) ↦ elim (Bool-cases (J.lua_generation_is old expected.object_generation)) [
          | inl q ↦ rw (e, q, delete_block_if_matches) (del-IsSafe _ s h)
          | inr q ↦ rw (e, q, delete_block_if_matches) h
        ]
      ]

  next_generation-IsSafe :
      (j : List ℕ) (s : R.Store) → IsSafe s → IsSafe (next_generation J R prefix j s).1
  unfolding next_generation
  next_generation-IsSafe j s h =
      elim (Option-cases (counter J R prefix (R.get (generation_key prefix j) s))) [
        | inl e ↦ rw (e, next_generation) h
        | inr (n, e) ↦ rw (e, next_generation) (set-IsSafe _ _ s h)
      ]

  pub Operation-IsSafe : {s s' : R.Store} → IsSafe s → Operation J R prefix s s' → IsSafe s'
  unfolding put_block delete_block
  Operation-IsSafe h (putting j meta s) = set-IsSafe _ (J.serialize meta) s h
  Operation-IsSafe h (putting_if_absent j meta s) = put_block_if_absent-IsSafe j meta s h
  Operation-IsSafe h (replacing j meta t s) = replace_block-IsSafe j meta t s h
  Operation-IsSafe h (retiring j t s) = retire_block-IsSafe j t s h
  Operation-IsSafe h (retiring_if_matches j meta t s) = retire_block_if_matches-IsSafe j meta t s h
  Operation-IsSafe h (deleting j s) = del-IsSafe _ s h
  Operation-IsSafe h (deleting_if_matches j meta s) = delete_block_if_matches-IsSafe j meta s h
  Operation-IsSafe h (counting j g s r short) = next_generation-IsSafe j s h
  Operation-IsSafe h (taking now limit lease s) =
      tracked-take_due_gc_tasks J R prefix k now limit lease s h
