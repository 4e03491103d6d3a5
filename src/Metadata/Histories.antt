-- ===== src/Metadata/Histories.antt =====
-- The generations of an object over a history of operations.
use context_store.Prelude.{
  ℕ, ◌^◌, ◌<◌, ◌≤◌, some, List, eq_bytes, eq_bytes_refl, eq_bytes→eq, ◌≡◌, ap, ◌∙◌, arith, inl, inr,
  Bool-cases,
}
use context_store.Metadata.Redis.{Redis, Json}
use context_store.Metadata.Backend.{
  generation_key, put_block, delete_block, next_generation, counter,
}
use context_store.Metadata.Generations.{
  counted, shown, next_generation_lem, next_generation_other, next_generation-counted,
}
use context_store.Metadata.Strings.{get-take_due_gc_tasks, get-run_command}
use context_store.Metadata.Steps.{
  Operation, Step, operating, sending, putting, putting_if_absent, replacing, retiring,
  retiring_if_matches, deleting, deleting_if_matches, counting, taking, Reach, done, next,
}
use context_store.Metadata.Counters.{
  stored, stored-set, stored-del, stored-put_block_if_absent, stored-replace_block,
  stored-retire_block, stored-retire_block_if_matches, stored-delete_block_if_matches,
}

module _ (J : Json) (R : Redis J.Doc) (prefix : List ℕ) (key : List ℕ) where
  -- A counter that is a number stays one and does not shrink.
  IsAbove : ℕ → R.Store → Type 0
  IsAbove n s = (m : ℕ) × (counted J R prefix key s ≡ some m) × (n ≤ m)

  kept :
      (n : ℕ) (s s' : R.Store)
      → stored J R prefix key s' ≡ stored J R prefix key s
      → counted J R prefix key s ≡ some n
      → IsAbove n s'
  unfolding IsAbove
  kept n s s' e h = (n, ap (counter J R prefix) e ∙ h, omega arith)

  Operation-IsAbove :
      {s s' : R.Store} (n : ℕ)
      → counted J R prefix key s ≡ some n
      → Operation J R prefix s s'
      → IsAbove n s'
  unfolding put_block delete_block IsAbove
  Operation-IsAbove n h (putting k meta s) =
      kept n s _ (stored-set J R prefix key k (J.serialize meta) s) h
  Operation-IsAbove n h (putting_if_absent k meta s) =
      kept n s _ (stored-put_block_if_absent J R prefix key k meta s) h
  Operation-IsAbove n h (replacing k meta t s) =
      kept n s _ (stored-replace_block J R prefix key k meta t s) h
  Operation-IsAbove n h (retiring k t s) = kept n s _ (stored-retire_block J R prefix key k t s) h
  Operation-IsAbove n h (retiring_if_matches k meta t s) =
      kept n s _ (stored-retire_block_if_matches J R prefix key k meta t s) h
  Operation-IsAbove n h (deleting k s) = kept n s _ (stored-del J R prefix key k s) h
  Operation-IsAbove n h (deleting_if_matches k meta s) =
      kept n s _ (stored-delete_block_if_matches J R prefix key k meta s) h
  Operation-IsAbove n h (counting k g s r short) = elim (Bool-cases (eq_bytes k key)) [
    | inl same ↦
        let e = eq_bytes→eq k key same in
        let (a, b, c, d) =
          next_generation_lem J R prefix k n g s (ap (λ i. counted J R prefix i s) e ∙ h) r short in
        (g, c key ∙ rw same, omega (arith, a))
    | inr other ↦
        let c = next_generation_other J R prefix k key g s r short other in (n, c ∙ h, omega arith)
  ]
  Operation-IsAbove n h (taking now limit lease s) =
      kept n s _ (get-take_due_gc_tasks J R prefix (generation_key prefix key) now limit lease s) h

  Step-IsAbove :
      {s s' : R.Store} (n : ℕ)
      → counted J R prefix key s ≡ some n
      → Step J R prefix s s'
      → IsAbove n s'
  Step-IsAbove n h (operating o) = Operation-IsAbove n h o
  Step-IsAbove n h (sending command s) =
      kept n s _ (get-run_command J R prefix (generation_key prefix key) command s) h

  Reach-IsAbove :
      {s s' : R.Store} (n : ℕ)
      → counted J R prefix key s ≡ some n
      → Reach J R prefix s s'
      → IsAbove n s'
  unfolding IsAbove
  Reach-IsAbove n h (done s) = (n, h, omega arith)
  Reach-IsAbove n h (next step rest) =
      let (m, e, a) = Step-IsAbove n h step in
      let (m', e', b) = Reach-IsAbove m e rest in (m', e', omega (arith, a, b))

  -- A generation of a key that is given after another one, both below 2 ^ 53, with any operations in
  -- between whose generations are below 2 ^ 53, is above it, and above the generation that the key
  -- shows then.
  pub next_generation-grows :
      (g g' : ℕ) (s s' : R.Store)
      → (next_generation J R prefix key s).0 ≡ some g
      → g < 2 ^ 53
      → Reach J R prefix (next_generation J R prefix key s).1 s'
      → (next_generation J R prefix key s').0 ≡ some g'
      → g' < 2 ^ 53
      → (g < g') × (shown J R prefix key s' < g')
  unfolding IsAbove
  next_generation-grows g g' s s' r short h r' short' =
      let (n, e) = next_generation-counted J R prefix key g s r in
      let (a, b, c, d) = next_generation_lem J R prefix key n g s e r short in
      let (m, f, above) = Reach-IsAbove g (c key ∙ rw (eq_bytes_refl key)) h in
      let (a', b', c', d') = next_generation_lem J R prefix key m g' s' f r' short' in
      (omega (arith, above, a'), b')
