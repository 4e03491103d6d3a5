-- ===== src/Metadata/Loops.antt =====
-- The two loops of the script that claims tasks.
use context_store.Prelude.{
  ℕ, Bool, true, false, ◌||◌, Option, none, some, List, [], ◌∷◌, ◌++◌, append_assoc, eq_bytes,
  eq_bytes→eq, if◌then◌else◌, ◌≡◌, refl, ap, sym, ◌∙◌, arith, inl, inr, Bool-cases, Option-cases,
}
use context_store.Prelude.Int.{ℤ}
use context_store.Metadata.Redis.{Redis, Json, has, is_some}
use context_store.Metadata.Backend.{gc_due_key, gc_inflight_key, requeue, requeued, leased, claim}
use context_store.Metadata.Sets.{
  due, inflight, Among, due-zrem_inflight, due-zadd_inflight, inflight-zrem_due, inflight-zadd_due,
  due-zrem_due, due-zadd_due, inflight-zrem_inflight, inflight-zadd_inflight,
}

or_false : (a b : Bool) → (a || b) ≡ false → (a ≡ false) × (b ≡ false)
or_false a b h = ground arith

if_or :
    {A : Type 0} (a b : Bool) (x : Option A)
    → (if b then none else (if a then none else x)) ≡ (if a || b then none else x)
if_or a b x = ground arith

module _ (J : Json) (R : Redis J.Doc) (prefix : List ℕ) where
  -- One round of the first loop.
  requeued-inflight :
      (now : ℤ) (j k : List ℕ) (b : Bool) (s : R.Store)
      → inflight J R prefix j (requeued J R prefix now k (b, s)) ≡ inflight J R prefix j s
  requeued-inflight now j k true s = inflight-zadd_due J R prefix j k now s
  requeued-inflight now j k false s = refl

  requeued-due :
      (now : ℤ) (j k : List ℕ) (b : Bool) (s : R.Store)
      → eq_bytes k j ≡ false
      → due J R prefix j (requeued J R prefix now k (b, s)) ≡ due J R prefix j s
  requeued-due now j k true s h = due-zadd_due J R prefix j k now s ∙ rw h
  requeued-due now j k false s h = refl

  requeued-hget :
      (now : ℤ) (j k : List ℕ) (b : Bool) (s : R.Store)
      → R.hget j (requeued J R prefix now k (b, s)) ≡ R.hget j s
  requeued-hget now j k true s = R.hget_zadd j _ k now s
  requeued-hget now j k false s = refl

  -- A task that the first loop does not name stays where it is.
  pub requeue_other :
      (now : ℤ) (j : List ℕ) (ks : List (List ℕ)) (s : R.Store)
      → has j ks ≡ false
      → (inflight J R prefix j (requeue J R prefix now ks s) ≡ inflight J R prefix j s)
        × (due J R prefix j (requeue J R prefix now ks s) ≡ due J R prefix j s)
  unfolding requeue has
  requeue_other now j [] s h = (refl, refl)
  requeue_other now j (k ∷ ks) s h =
      let (other, rest) = or_false (eq_bytes k j) (has j ks) h in
      let (a, b) =
        requeue_other now j ks (requeued J R prefix now k (R.zrem (gc_inflight_key prefix) k s))
          rest in
      (
        a ∙ requeued-inflight now j k _ _ ∙ inflight-zrem_inflight J R prefix j k s ∙ rw other,
        b ∙ requeued-due now j k _ _ other ∙ due-zrem_inflight J R prefix j k s,
      )

  pub requeue-hget :
      (now : ℤ) (j : List ℕ) (ks : List (List ℕ)) (s : R.Store)
      → R.hget j (requeue J R prefix now ks s) ≡ R.hget j s
  unfolding requeue
  requeue-hget now j [] s = refl
  requeue-hget now j (k ∷ ks) s =
      requeue-hget now j ks _ ∙ requeued-hget now j k _ _ ∙ R.hget_zrem j _ k s

  -- One round of the second loop.
  leased-due :
      (until : ℤ) (j k : List ℕ) (b : Bool) (s : R.Store)
      → due J R prefix j (leased J R prefix until k (b, s)).1 ≡ due J R prefix j s
  leased-due until j k false s = refl
  leased-due until j k true s = elim (Option-cases (R.hget k s)) [
    | inl e ↦ rw (e, leased)
    | inr (d, e) ↦ rw (e, leased) (due-zadd_inflight J R prefix j k until s)
  ]

  leased-hget :
      (until : ℤ) (j k : List ℕ) (b : Bool) (s : R.Store)
      → R.hget j (leased J R prefix until k (b, s)).1 ≡ R.hget j s
  leased-hget until j k false s = refl
  leased-hget until j k true s = elim (Option-cases (R.hget k s)) [
    | inl e ↦ rw (e, leased)
    | inr (d, e) ↦ rw (e, leased) (R.hget_zadd j _ k until s)
  ]

  leased-inflight :
      (until : ℤ) (j k : List ℕ) (b : Bool) (s : R.Store)
      → eq_bytes k j ≡ false
      → inflight J R prefix j (leased J R prefix until k (b, s)).1 ≡ inflight J R prefix j s
  leased-inflight until j k false s h = refl
  leased-inflight until j k true s h = elim (Option-cases (R.hget k s)) [
    | inl e ↦ rw (e, leased)
    | inr (d, e) ↦ rw (e, leased) (inflight-zadd_inflight J R prefix j k until s ∙ rw h)
  ]

  -- After the second loop no task that it names is due.
  pub claim-due :
      (until : ℤ) (j : List ℕ) (ks : List (List ℕ)) (s : R.Store)
      → due J R prefix j (claim J R prefix until ks s).1
        ≡ (if has j ks then none else due J R prefix j s)
  unfolding claim has
  claim-due until j [] s = refl
  claim-due until j (k ∷ ks) s =
      claim-due until j ks _
      ∙ ap (λ o. if has j ks then none else o)
          (leased-due until j k _ _ ∙ due-zrem_due J R prefix j k s)
      ∙ if_or (eq_bytes k j) (has j ks) (due J R prefix j s)

  claim-hget :
      (until : ℤ) (j : List ℕ) (ks : List (List ℕ)) (s : R.Store)
      → R.hget j (claim J R prefix until ks s).1 ≡ R.hget j s
  unfolding claim
  claim-hget until j [] s = refl
  claim-hget until j (k ∷ ks) s =
      claim-hget until j ks _ ∙ leased-hget until j k _ _ ∙ R.hget_zrem j _ k s

  leased-false :
      (until : ℤ) (k : List ℕ) (p : Bool × R.Store)
      → p.0 ≡ false
      → (leased J R prefix until k p).1 ≡ p.1
  leased-false until k (false, s) h = refl
  leased-false until k (true, s) h = absurd (cc)

  leased-true :
      (until : ℤ) (k : List ℕ) (d : J.Doc) (p : Bool × R.Store)
      → p.0 ≡ true
      → R.hget k p.1 ≡ some d
      → leased J R prefix until k p ≡ (d ∷ [], R.zadd (gc_inflight_key prefix) until k p.1)
  leased-true until k d (true, s) h e = rw (e, leased)
  leased-true until k d (false, s) h e = absurd (cc)

  leased_absent :
      (until : ℤ) (j k : List ℕ) (s : R.Store)
      → due J R prefix j s ≡ none
      → inflight J R prefix j (leased J R prefix until k (R.zrem (gc_due_key prefix) k s)).1
        ≡ inflight J R prefix j s
  leased_absent until j k s h = elim (Bool-cases (eq_bytes k j)) [
    | inl same ↦
        ap (λ i. inflight J R prefix j i)
          (leased-false until k _ (
            R.zrem_count (gc_due_key prefix) k s
            ∙ ap is_some (ap (λ i. due J R prefix i s) (eq_bytes→eq k j same) ∙ h)))
        ∙ inflight-zrem_due J R prefix j k s
    | inr other ↦ leased-inflight until j k _ _ other ∙ inflight-zrem_due J R prefix j k s
  ]

  -- A task that is not due is not touched by the second loop.
  pub claim_other :
      (until : ℤ) (j : List ℕ) (ks : List (List ℕ)) (s : R.Store)
      → due J R prefix j s ≡ none
      → inflight J R prefix j (claim J R prefix until ks s).1 ≡ inflight J R prefix j s
  unfolding claim
  claim_other until j [] s h = refl
  claim_other until j (k ∷ ks) s h =
      claim_other until j ks _
        (leased-due until j k _ _ ∙ due-zrem_due J R prefix j k s ∙ stays_none (eq_bytes k j) h)
      ∙ leased_absent until j k s h
    where
      stays_none :
          (b : Bool) → due J R prefix j s ≡ none → (if b then none else due J R prefix j s) ≡ none
      stays_none true e = refl
      stays_none false e = e

  -- A task that it names, that is due and has a payload, is in flight until the end of the lease.
  pub claim_named :
      (until : ℤ) (j : List ℕ) (d : J.Doc) (x : ℤ) (ks : List (List ℕ)) (s : R.Store)
      → has j ks ≡ true
      → due J R prefix j s ≡ some x
      → R.hget j s ≡ some d
      → Among J R prefix d (claim J R prefix until ks s).0
        × (inflight J R prefix j (claim J R prefix until ks s).1 ≡ some until)
  unfolding claim has
  claim_named until j d x [] s h q p = absurd (ground arith)
  claim_named until j d x (k ∷ ks) s h q p = elim (Bool-cases (eq_bytes k j)) [
    | inl same ↦
        let e = eq_bytes→eq k j same in
        let one =
          leased-true until k d (R.zrem (gc_due_key prefix) k s)
            (R.zrem_count (gc_due_key prefix) k s ∙ ap is_some (ap (λ i. due J R prefix i s) e ∙ q))
            (R.hget_zrem k _ k s ∙ ap (λ i. R.hget i s) e ∙ p) in
        (
          (
            [],
            (claim J R prefix until ks
                (leased J R prefix until k (R.zrem (gc_due_key prefix) k s)).1).0,
            ap
                (λ r.
                  r.0
                  ++ (claim J R prefix until ks
                      (leased J R prefix until k (R.zrem (gc_due_key prefix) k s)).1).0)
                one,
          ),
          claim_other until j ks _
                (leased-due until j k _ _ ∙ due-zrem_due J R prefix j k s ∙ rw same)
              ∙ ap (λ i. inflight J R prefix j i) (ap (λ r. r.1) one)
              ∙ inflight-zadd_inflight J R prefix j k until _
              ∙ rw same,
        )
    | inr other ↦
        let payload = (leased J R prefix until k (R.zrem (gc_due_key prefix) k s)).0 in
        let ((before, after, e), f) =
          claim_named until j d x ks _ (rw other at h)
            (leased-due until j k _ _ ∙ due-zrem_due J R prefix j k s ∙ rw other q)
            (leased-hget until j k _ _ ∙ R.hget_zrem j _ k s ∙ p) in
        (
          (
            payload ++ before,
            after,
            ap (λ ds. payload ++ ds) e ∙ sym (append_assoc payload before (d ∷ after)),
          ),
          f,
        )
  ]
