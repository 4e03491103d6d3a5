-- ===== src/Metadata/Sets.antt =====
-- The sets of due tasks and of tasks in flight, and how one command changes the place of a task.
use context_store.Prelude.{
  ℕ, Option, none, some, List, ◌∷◌, ◌++◌, eq_bytes, eq_bytes_refl, if◌then◌else◌, ◌≡◌,
}
use context_store.Prelude.Int.{ℤ}
use context_store.Metadata.Redis.{Redis, Json}
use context_store.Metadata.Backend.{gc_due_key, gc_inflight_key}
use context_store.Metadata.Keys.{due-ne-inflight, inflight-ne-due}

module _ (J : Json) (R : Redis J.Doc) (prefix : List ℕ) where
  abbrev pub due : List ℕ → R.Store → Option ℤ
  due k s = R.score (gc_due_key prefix) k s

  abbrev pub inflight : List ℕ → R.Store → Option ℤ
  inflight k s = R.score (gc_inflight_key prefix) k s

  -- A document is in a list.
  abbrev pub Among : J.Doc → List J.Doc → Type 0
  Among d ds = (before : List J.Doc) × (after : List J.Doc) × (ds ≡ before ++ d ∷ after)

  -- How each command of the loops changes one task in the two sets.
  pub due-zrem_inflight :
      (k j : List ℕ) (s : R.Store) → due k (R.zrem (gc_inflight_key prefix) j s).1 ≡ due k s
  due-zrem_inflight k j s = rw (R.score_zrem, inflight-ne-due prefix)

  pub due-zadd_inflight :
      (k j : List ℕ) (x : ℤ) (s : R.Store) → due k (R.zadd (gc_inflight_key prefix) x j s) ≡ due k s
  due-zadd_inflight k j x s = rw (R.score_zadd, inflight-ne-due prefix)

  pub inflight-zrem_due :
      (k j : List ℕ) (s : R.Store) → inflight k (R.zrem (gc_due_key prefix) j s).1 ≡ inflight k s
  inflight-zrem_due k j s = rw (R.score_zrem, due-ne-inflight prefix)

  pub inflight-zadd_due :
      (k j : List ℕ) (x : ℤ) (s : R.Store)
      → inflight k (R.zadd (gc_due_key prefix) x j s) ≡ inflight k s
  inflight-zadd_due k j x s = rw (R.score_zadd, due-ne-inflight prefix)

  pub due-zrem_due :
      (k j : List ℕ) (s : R.Store)
      → due k (R.zrem (gc_due_key prefix) j s).1 ≡ (if eq_bytes j k then none else due k s)
  due-zrem_due k j s = rw (R.score_zrem, eq_bytes_refl (gc_due_key prefix))

  pub due-zadd_due :
      (k j : List ℕ) (x : ℤ) (s : R.Store)
      → due k (R.zadd (gc_due_key prefix) x j s) ≡ (if eq_bytes j k then some x else due k s)
  due-zadd_due k j x s = rw (R.score_zadd, eq_bytes_refl (gc_due_key prefix))

  pub inflight-zrem_inflight :
      (k j : List ℕ) (s : R.Store)
      → inflight k (R.zrem (gc_inflight_key prefix) j s).1
        ≡ (if eq_bytes j k then none else inflight k s)
  inflight-zrem_inflight k j s = rw (R.score_zrem, eq_bytes_refl (gc_inflight_key prefix))

  pub inflight-zadd_inflight :
      (k j : List ℕ) (x : ℤ) (s : R.Store)
      → inflight k (R.zadd (gc_inflight_key prefix) x j s)
        ≡ (if eq_bytes j k then some x else inflight k s)
  inflight-zadd_inflight k j x s = rw (R.score_zadd, eq_bytes_refl (gc_inflight_key prefix))
