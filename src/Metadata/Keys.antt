-- ===== src/Metadata/Keys.antt =====
-- The keys that the metadata service uses in Redis never clash.
use context_store.Prelude.{ℕ, false, List, [], ◌∷◌, ◌++◌, eq_bytes, ◌≡◌, refl, arith}
use context_store.Metadata.Backend.{
  block_key, generation_key, gc_due_key, gc_inflight_key, gc_task_key,
}

eq_bytes-append : (xs ys zs : List ℕ) → eq_bytes (xs ++ ys) (xs ++ zs) ≡ eq_bytes ys zs
unfolding eq_bytes
eq_bytes-append [] ys zs = refl
eq_bytes-append (x ∷ xs) ys zs = ground (arith, eq_bytes-append xs ys zs)

module _ (prefix : List ℕ) where
  pub eq-block_key :
      (a b : List ℕ) → eq_bytes (block_key prefix a) (block_key prefix b) ≡ eq_bytes a b
  unfolding block_key eq_bytes
  eq-block_key a b = eq_bytes-append prefix _ _

  pub eq-generation_key :
      (a b : List ℕ) → eq_bytes (generation_key prefix a) (generation_key prefix b) ≡ eq_bytes a b
  unfolding generation_key eq_bytes
  eq-generation_key a b = eq_bytes-append prefix _ _

  eq-gc_task_key :
      (a b : List ℕ) → eq_bytes (gc_task_key prefix a) (gc_task_key prefix b) ≡ eq_bytes a b
  unfolding gc_task_key eq_bytes
  eq-gc_task_key a b = eq_bytes-append prefix _ _

  -- Whatever the prefix, the object and the task: the key of metadata, the key of a counter, the two
  -- sorted sets and the key of a task are five different keys.
  pub keys_apart :
      (a b id : List ℕ)
      → (eq_bytes (block_key prefix a) (generation_key prefix b) ≡ false)
        × (eq_bytes (block_key prefix a) (gc_due_key prefix) ≡ false)
        × (eq_bytes (block_key prefix a) (gc_inflight_key prefix) ≡ false)
        × (eq_bytes (block_key prefix a) (gc_task_key prefix id) ≡ false)
        × (eq_bytes (generation_key prefix b) (gc_due_key prefix) ≡ false)
        × (eq_bytes (generation_key prefix b) (gc_inflight_key prefix) ≡ false)
        × (eq_bytes (generation_key prefix b) (gc_task_key prefix id) ≡ false)
        × (eq_bytes (gc_due_key prefix) (gc_inflight_key prefix) ≡ false)
        × (eq_bytes (gc_due_key prefix) (gc_task_key prefix id) ≡ false)
        × (eq_bytes (gc_inflight_key prefix) (gc_task_key prefix id) ≡ false)
  unfolding block_key generation_key gc_due_key gc_inflight_key gc_task_key eq_bytes
  keys_apart a b id = (
    eq_bytes-append prefix _ _,
    eq_bytes-append prefix _ _,
    eq_bytes-append prefix _ _,
    eq_bytes-append prefix _ _,
    eq_bytes-append prefix _ _,
    eq_bytes-append prefix _ _,
    eq_bytes-append prefix _ _,
    eq_bytes-append prefix _ _,
    eq_bytes-append prefix _ _,
    eq_bytes-append prefix _ _,
  )

  pub due-ne-inflight : eq_bytes (gc_due_key prefix) (gc_inflight_key prefix) ≡ false
  due-ne-inflight = (keys_apart [] [] []).7

  pub inflight-ne-due : eq_bytes (gc_inflight_key prefix) (gc_due_key prefix) ≡ false
  unfolding gc_due_key gc_inflight_key eq_bytes
  inflight-ne-due = eq_bytes-append prefix _ _

  pub generation-ne-block :
      (a b : List ℕ) → eq_bytes (generation_key prefix a) (block_key prefix b) ≡ false
  unfolding block_key generation_key eq_bytes
  generation-ne-block a b = eq_bytes-append prefix _ _

  pub block-ne-generation :
      (a b : List ℕ) → eq_bytes (block_key prefix a) (generation_key prefix b) ≡ false
  block-ne-generation a b = (keys_apart a b []).0
