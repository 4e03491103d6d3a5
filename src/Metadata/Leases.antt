-- ===== src/Metadata/Leases.antt =====
-- The queue of tasks: what claiming does to the sets of due tasks and of tasks in flight.
use context_store.Prelude.{
  take, ℕ, All, zero, suc, Bool, true, false, Option, none, some, List, [], ◌∷◌, if◌then◌else◌, ◌≡◌,
  refl, ap, sym, ◌∙◌, arith, inl, inr, Bool-cases,
}
use context_store.Prelude.Int.{ℤ, pos, leb_ℤ, ◌+ℤ◌}
use context_store.Metadata.Redis.{Redis, Json, has, is_due}
use context_store.Metadata.Backend.{
  gc_due_key, gc_inflight_key, requeue, requeue_expired, task_keys, claim, claim_due,
}
use context_store.Metadata.Sets.{due, inflight, Among}
use context_store.Metadata.Loops.{requeue_other, requeue-hget, claim-due, claim_other, claim_named}

module _ (J : Json) (R : Redis J.Doc) (prefix : List ℕ) where
  -- The tasks whose lease ran out, and those that are claimed.
  abbrev pub expired : ℤ → R.Store → List (List ℕ)
  expired now s = R.zrangebyscore (gc_inflight_key prefix) now s

  abbrev pub claimed : ℤ → ℕ → R.Store → List (List ℕ)
  claimed now limit s = task_keys J R prefix now limit (requeue_expired J R prefix now s)

  has-take : (j : List ℕ) (n : ℕ) (ks : List (List ℕ)) → has j (take n ks) ≡ true → has j ks ≡ true
  unfolding has
  has-take j zero ks h = absurd (ground arith)
  has-take j (suc n) [] h = h
  has-take j (suc n) (k ∷ ks) h = ground (arith, has-take j n ks)

  not_due : (o : Option ℤ) (now : ℤ) → is_due o now ≡ true → o ≡ none → ⊥
  not_due none now h e = cc
  not_due (some x) now h e = cc

  due_score : (o : Option ℤ) (now : ℤ) → is_due o now ≡ true → (x : ℤ) × (o ≡ some x)
  due_score none now h = absurd (cc)
  due_score (some x) now h = (x, refl)

  if_none : (b : Bool) → ◌≡◌ {A = Option ℤ} (if b then none else none) none
  if_none true = refl
  if_none false = refl

  pub claim_due-early :
      (now x : ℤ) (limit : ℕ) (j : List ℕ) (s : R.Store)
      → inflight J R prefix j s ≡ none
      → due J R prefix j s ≡ some x
      → leb_ℤ x now ≡ false
      → has j (claimed now limit s) ≡ false
  unfolding requeue_expired
  claim_due-early now x limit j s f q late =
      let (a, b) =
        requeue_other J R prefix now j (expired now s) s
          (R.zrangebyscore_lem (gc_inflight_key prefix) j now s ∙ ap (λ o. is_due o now) f) in
      let s₁ = requeue J R prefix now (expired now s) s in
      elim (Bool-cases (has j (take limit (R.zrangebyscore (gc_due_key prefix) now s₁)))) [
        | inr e ↦ e
        | inl e ↦ absurd (
            both (leb_ℤ x now) late (
              sym (ap (λ o. is_due o now) (b ∙ q))
              ∙ sym (R.zrangebyscore_lem (gc_due_key prefix) j now s₁)
              ∙ has-take j limit _ e))
      ]
    where
      both : (b : Bool) → b ≡ false → b ≡ true → ⊥
      both b e f = cc

  -- A task that is neither due nor in flight is not claimed.
  pub claim_due-none :
      (now : ℤ) (limit : ℕ) (j : List ℕ) (s : R.Store)
      → inflight J R prefix j s ≡ none
      → due J R prefix j s ≡ none
      → has j (claimed now limit s) ≡ false
  unfolding requeue_expired
  claim_due-none now limit j s f q =
      let (a, b) =
        requeue_other J R prefix now j (expired now s) s
          (R.zrangebyscore_lem (gc_inflight_key prefix) j now s ∙ ap (λ o. is_due o now) f) in
      let s₁ = requeue J R prefix now (expired now s) s in
      elim (Bool-cases (has j (take limit (R.zrangebyscore (gc_due_key prefix) now s₁)))) [
        | inr e ↦ e
        | inl e ↦ absurd (
            not_due (due J R prefix j s₁) now
              (sym (R.zrangebyscore_lem (gc_due_key prefix) j now s₁) ∙ has-take j limit _ e)
              (b ∙ q))
      ]

  -- A task that is in flight under a lease that has not run out, and not due, is not claimed by
  -- another call, and keeps its lease.
  claim_due-lease :
      (now x : ℤ) (limit lease_seconds : ℕ) (j : List ℕ) (s : R.Store)
      → inflight J R prefix j s ≡ some x
      → leb_ℤ x now ≡ false
      → due J R prefix j s ≡ none
      → (has j (claimed now limit s) ≡ false)
        × (inflight J R prefix j (claim_due J R prefix now limit lease_seconds s).1 ≡ some x)
        × (due J R prefix j (claim_due J R prefix now limit lease_seconds s).1 ≡ none)
  unfolding claim_due requeue_expired
  claim_due-lease now x limit lease_seconds j s f late q =
      let (a, b) =
        requeue_other J R prefix now j (expired now s) s (
          R.zrangebyscore_lem (gc_inflight_key prefix) j now s ∙ ap (λ o. is_due o now) f ∙ late) in
      let none_due = b ∙ q in
      let s₁ = requeue J R prefix now (expired now s) s in
      let ks = take limit (R.zrangebyscore (gc_due_key prefix) now s₁) in
      (
        elim (Bool-cases (has j ks)) [
          | inr e ↦ e
          | inl e ↦ absurd (
              not_due (due J R prefix j s₁) now
                (sym (R.zrangebyscore_lem (gc_due_key prefix) j now s₁) ∙ has-take j limit _ e)
                none_due)
        ],
        claim_other J R prefix (now +ℤ pos lease_seconds) j ks s₁ none_due ∙ a ∙ f,
        claim-due J R prefix (now +ℤ pos lease_seconds) j ks s₁
            ∙ ap (λ o. if has j ks then none else o) none_due
            ∙ if_none (has j ks),
      )

  -- Further calls, each with its time, its limit and the seconds of its leases.
  pub claim_all : List (ℤ × ℕ × ℕ) → R.Store → R.Store
  claim_all [] s = s
  claim_all ((now, limit, lease_seconds) ∷ calls) s =
      claim_all calls (claim_due J R prefix now limit lease_seconds s).1

  -- Every call comes before that time.
  abbrev pub AllBefore : ℤ → List (ℤ × ℕ × ℕ) → Type 0
  AllBefore end calls = All (λ call. leb_ℤ end call.0 ≡ false) calls

  -- No number of calls before the end of a lease touches it.
  claim_all-lease :
      (x : ℤ) (calls : List (ℤ × ℕ × ℕ)) (j : List ℕ) (s : R.Store)
      → inflight J R prefix j s ≡ some x
      → due J R prefix j s ≡ none
      → AllBefore x calls
      → (inflight J R prefix j (claim_all calls s) ≡ some x)
        × (due J R prefix j (claim_all calls s) ≡ none)
  unfolding claim_all
  claim_all-lease x [] j s f q h = (f, q)
  claim_all-lease x ((now, limit, lease_seconds) ∷ calls) j s f q h =
      let (_, f', q') = claim_due-lease now x limit lease_seconds j s f h.0 q in
      claim_all-lease x calls j (claim_due J R prefix now limit lease_seconds s).1 f' q' h.1

  -- A task that one call claims and that has a payload: the payload is among those returned, and the
  -- task is then in flight until the end of the lease, and not due. After any number of further claims
  -- by anyone, all before that end, it still is, and one more claim before that end does not take it.
  pub claim_due-once :
      (now later : ℤ) (limit limit' lease_seconds : ℕ) (calls : List (ℤ × ℕ × ℕ)) (j : List ℕ)
      (d : J.Doc) (s : R.Store)
      → has j (claimed now limit s) ≡ true
      → R.hget j s ≡ some d
      → AllBefore (now +ℤ pos lease_seconds) calls
      → leb_ℤ (now +ℤ pos lease_seconds) later ≡ false
      → Among J R prefix d (claim_due J R prefix now limit lease_seconds s).0
        × (inflight J R prefix j
              (claim_all calls (claim_due J R prefix now limit lease_seconds s).1)
            ≡ some (now +ℤ pos lease_seconds))
        × (due J R prefix j (claim_all calls (claim_due J R prefix now limit lease_seconds s).1)
            ≡ none)
        × (has j (
              claimed later limit'
                (claim_all calls (claim_due J R prefix now limit lease_seconds s).1))
            ≡ false)
  unfolding claim_due requeue_expired
  claim_due-once now later limit limit' lease_seconds calls j d s h p before late =
      let s₁ = requeue J R prefix now (expired now s) s in
      let ks = take limit (R.zrangebyscore (gc_due_key prefix) now s₁) in
      let (x, q) =
        due_score (due J R prefix j s₁) now
          (sym (R.zrangebyscore_lem (gc_due_key prefix) j now s₁) ∙ has-take j limit _ h) in
      let (among, leased_now) =
        claim_named J R prefix (now +ℤ pos lease_seconds) j d x ks s₁ h q
          (requeue-hget J R prefix now j (expired now s) s ∙ p) in
      let gone =
        claim-due J R prefix (now +ℤ pos lease_seconds) j ks s₁
        ∙ ap (λ b. if b then none else due J R prefix j s₁) h in
      let (f, q') =
        claim_all-lease (now +ℤ pos lease_seconds) calls j
          (claim J R prefix (now +ℤ pos lease_seconds) ks s₁).1 leased_now gone before in
      (
        among,
        f,
        q',
        (claim_due-lease later (now +ℤ pos lease_seconds) limit' 0 j
            (claim_all calls (claim J R prefix (now +ℤ pos lease_seconds) ks s₁).1) f late q').0,
      )
