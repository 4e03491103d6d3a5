-- ===== src/Metadata/Tasks.antt =====
-- No task of reclamation is lost: as long as it is written down it is due or in flight.
use context_store.Prelude.{
  ℕ, Bool, true, false, not, ◌||◌, Option, none, some, List, [], ◌∷◌, eq_bytes, eq_bytes→eq,
  if◌then◌else◌, ◌≡◌, refl, ap, sym, ◌∙◌, arith, inl, inr, Option-cases,
}
use context_store.Prelude.Int.{ℤ, ◌+ℤ◌, pos}
use context_store.Metadata.Redis.{Redis, Json, is_some}
use context_store.Metadata.Backend.{
  gc_due_key, gc_inflight_key, requeue, requeue_expired, requeued, leased, claim, claim_due,
  take_due_gc_tasks, task_keys,
}
use context_store.Metadata.Sets.{
  due, inflight, due-zrem_inflight, due-zadd_inflight, inflight-zrem_due, inflight-zadd_due,
  due-zrem_due, due-zadd_due, inflight-zrem_inflight, inflight-zadd_inflight,
}

-- A written task, its place among the due ones and among those in flight.
abbrev pub safe : {A B C : Type 0} → Option A → Option B → Option C → Bool
safe payload d f = not (is_some payload) || is_some d || is_some f

safe_if :
    {A B C : Type 0} (b : Bool) (p q : Option A) (d d' : Option B) (f f' : Option C)
    → (b ≡ true → safe p d f ≡ true)
    → (b ≡ false → safe q d' f' ≡ true)
    → safe (if b then p else q) (if b then d else d') (if b then f else f') ≡ true
safe_if true p q d d' f f' h h' = h refl
safe_if false p q d d' f f' h h' = h' refl

if_same : {A : Type 0} (b : Bool) (x : A) → x ≡ (if b then x else x)
if_same true x = refl
if_same false x = refl

pub safe_due : {A B C : Type 0} (p : Option A) (x : B) (f : Option C) → safe p (some x) f ≡ true
safe_due none x f = refl
safe_due (some a) x f = refl

safe_inflight : {A B C : Type 0} (p : Option A) (d : Option B) (x : C) → safe p d (some x) ≡ true
safe_inflight none d x = refl
safe_inflight (some a) none x = refl
safe_inflight (some a) (some y) x = refl

module _ (J : Json) (R : Redis J.Doc) (prefix : List ℕ) (k : List ℕ) where
  abbrev pub tracked : R.Store → Bool
  tracked s = safe (R.hget k s) (due J R prefix k s) (inflight J R prefix k s)

  pub same :
      {a a' : Option J.Doc} {b b' c c' : Option ℤ}
      → a' ≡ a
      → b' ≡ b
      → c' ≡ c
      → safe a' b' c' ≡ safe a b c
  same e f g = cc

  pub tracked-set : (j : List ℕ) (d : J.Doc) (s : R.Store) → tracked (R.set j d s) ≡ tracked s
  tracked-set j d s = same (R.hget_set k j d s) (R.score_set _ k j d s) (R.score_set _ k j d s)

  pub tracked-del : (j : List ℕ) (s : R.Store) → tracked (R.del j s) ≡ tracked s
  tracked-del j s = same (R.hget_del k j s) (R.score_del _ k j s) (R.score_del _ k j s)

  -- A task is written and becomes due.
  pub tracked-hset :
      (j : List ℕ) (d : J.Doc) (x : ℤ) (s : R.Store)
      → tracked s ≡ true
      → tracked (R.zadd (gc_due_key prefix) x j (R.hset j d s)) ≡ true
  tracked-hset j d x s h =
      same (R.hget_zadd k _ j x _ ∙ R.hget_hset k j d s)
        (due-zadd_due J R prefix k j x _
          ∙ ap (λ o. if eq_bytes j k then some x else o) (R.score_hset _ k j d s))
        (inflight-zadd_due J R prefix k j x _ ∙ R.score_hset _ k j d s ∙ if_same (eq_bytes j k) _)
      ∙ safe_if (eq_bytes j k) _ _ _ _ _ _ (λ e. safe_due (some d) x (inflight J R prefix k s))
          (λ e. h)

  not_some : (o : Option ℤ) → is_some o ≡ false → o ≡ none
  not_some none h = refl
  not_some (some x) h = absurd (ground arith)

  if_none : (b : Bool) (o : Option ℤ) → (b ≡ true → o ≡ none) → (if b then none else o) ≡ o
  if_none true o h = sym (h refl)
  if_none false o h = refl

  -- A task that a set does not hold is not changed by its removal.
  absent :
      (z j : List ℕ) (s : R.Store)
      → (R.zrem z j s).0 ≡ false
      → (if eq_bytes j k then none else R.score z k s) ≡ R.score z k s
  absent z j s h = if_none (eq_bytes j k) (R.score z k s) (λ e.
      ap (λ i. R.score z i s) (sym (eq_bytes→eq j k e))
      ∙ not_some (R.score z j s) (sym (R.zrem_count z j s) ∙ h))

  tracked-requeued_true :
      (now : ℤ) (j : List ℕ) (s : R.Store)
      → tracked s ≡ true
      → tracked (R.zadd (gc_due_key prefix) now j (R.zrem (gc_inflight_key prefix) j s).1) ≡ true
  tracked-requeued_true now j s h =
      same (R.hget_zadd k _ j now _ ∙ R.hget_zrem k _ j s ∙ if_same (eq_bytes j k) _)
        (due-zadd_due J R prefix k j now _
          ∙ ap (λ o. if eq_bytes j k then some now else o) (due-zrem_inflight J R prefix k j s))
        (inflight-zadd_due J R prefix k j now _ ∙ inflight-zrem_inflight J R prefix k j s)
      ∙ safe_if (eq_bytes j k) (R.hget k s) (R.hget k s) (some now) (due J R prefix k s) none
          (inflight J R prefix k s) (λ e. safe_due {C = ℤ} (R.hget k s) now none) (λ e. h)

  tracked-requeued :
      (now : ℤ) (j : List ℕ) (s : R.Store) (p : Bool × R.Store)
      → p ≡ R.zrem (gc_inflight_key prefix) j s
      → tracked s ≡ true
      → tracked (requeued J R prefix now j p) ≡ true
  tracked-requeued now j s (true, s₁) e h =
      ap (λ q. tracked (R.zadd (gc_due_key prefix) now j q.1)) e ∙ tracked-requeued_true now j s h
  tracked-requeued now j s (false, s₁) e h =
      ap (λ q. tracked q.1) e
      ∙ same (R.hget_zrem k _ j s) (due-zrem_inflight J R prefix k j s) (
          inflight-zrem_inflight J R prefix k j s
          ∙ absent (gc_inflight_key prefix) j s (ap (λ q. q.0) (sym e)))
      ∙ h

  tracked-requeue :
      (now : ℤ) (js : List (List ℕ)) (s : R.Store)
      → tracked s ≡ true
      → tracked (requeue J R prefix now js s) ≡ true
  unfolding requeue
  tracked-requeue now [] s h = h
  tracked-requeue now (j ∷ js) s h = tracked-requeue now js _ (tracked-requeued now j s _ refl h)

  tracked-leased_some :
      (until : ℤ) (j : List ℕ) (s : R.Store)
      → tracked s ≡ true
      → tracked (R.zadd (gc_inflight_key prefix) until j (R.zrem (gc_due_key prefix) j s).1) ≡ true
  tracked-leased_some until j s h =
      same (R.hget_zadd k _ j until _ ∙ R.hget_zrem k _ j s ∙ if_same (eq_bytes j k) _)
        (due-zadd_inflight J R prefix k j until _ ∙ due-zrem_due J R prefix k j s)
        (inflight-zadd_inflight J R prefix k j until _
          ∙ ap (λ o. if eq_bytes j k then some until else o) (inflight-zrem_due J R prefix k j s))
      ∙ safe_if (eq_bytes j k) (R.hget k s) (R.hget k s) none (due J R prefix k s) (some until)
          (inflight J R prefix k s) (λ e. safe_inflight {B = ℤ} (R.hget k s) none until) (λ e. h)

  tracked-leased_none :
      (j : List ℕ) (s : R.Store)
      → R.hget j s ≡ none
      → tracked s ≡ true
      → tracked (R.zrem (gc_due_key prefix) j s).1 ≡ true
  tracked-leased_none j s g h =
      same (R.hget_zrem k _ j s ∙ if_same (eq_bytes j k) _) (due-zrem_due J R prefix k j s)
        (inflight-zrem_due J R prefix k j s ∙ if_same (eq_bytes j k) _)
      ∙ safe_if (eq_bytes j k) (R.hget k s) (R.hget k s) none (due J R prefix k s)
          (inflight J R prefix k s) (inflight J R prefix k s)
          (λ e.
            ap (λ o. safe {B = ℤ} o none (inflight J R prefix k s))
              (ap (λ i. R.hget i s) (sym (eq_bytes→eq j k e)) ∙ g))
          (λ e. h)

  tracked-leased :
      (until : ℤ) (j : List ℕ) (s : R.Store) (p : Bool × R.Store)
      → p ≡ R.zrem (gc_due_key prefix) j s
      → tracked s ≡ true
      → tracked (leased J R prefix until j p).1 ≡ true
  tracked-leased until j s (true, s₁) e h =
      let same_hget = ap (λ q. R.hget j q.1) e ∙ R.hget_zrem j _ j s in
      elim (Option-cases (R.hget j s₁)) [
        | inl f ↦
            rw (f, leased) (ap (λ q. tracked q.1) e ∙ tracked-leased_none j s (sym same_hget ∙ f) h)
        | inr (d, f) ↦
            rw (f, leased)
              (ap (λ q. tracked (R.zadd (gc_inflight_key prefix) until j q.1)) e
                ∙ tracked-leased_some until j s h)
      ]
  tracked-leased until j s (false, s₁) e h =
      ap (λ q. tracked q.1) e
      ∙ same (R.hget_zrem k _ j s)
          (due-zrem_due J R prefix k j s ∙ absent (gc_due_key prefix) j s (ap (λ q. q.0) (sym e)))
          (inflight-zrem_due J R prefix k j s)
      ∙ h

  tracked-claim :
      (until : ℤ) (js : List (List ℕ)) (s : R.Store)
      → tracked s ≡ true
      → tracked (claim J R prefix until js s).1 ≡ true
  unfolding claim
  tracked-claim until [] s h = h
  tracked-claim until (j ∷ js) s h = tracked-claim until js _ (tracked-leased until j s _ refl h)

  pub tracked-take_due_gc_tasks :
      (now : ℤ) (limit lease_seconds : ℕ) (s : R.Store)
      → tracked s ≡ true
      → tracked (take_due_gc_tasks J R prefix now limit lease_seconds s).1 ≡ true
  unfolding take_due_gc_tasks claim_due requeue_expired
  tracked-take_due_gc_tasks now limit lease_seconds s h =
      tracked-claim (now +ℤ pos lease_seconds)
        (task_keys J R prefix now limit (requeue_expired J R prefix now s)) _
        (tracked-requeue now (R.zrangebyscore (gc_inflight_key prefix) now s) s h)
