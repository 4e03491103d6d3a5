-- ===== src/Prelude/Actions.antt =====
-- Actions: state and errors. The state comes back after an error too, since what was done stays done.
use mathlib.Core.Option.{Option, none, some}
use mathlib.Core.Path.{◌≡◌, ap}
use mathlib.Core.Logic.{inl, inr}
use context_store.Prelude.Tests.{Option-cases}
use mathlib.Core.Path.{sym, subst, ◌∙◌}
use context_store.Prelude.Results.{Result, ok, err, Result-cases}

abbrev pub Action : Type 0 → Type 0 → Type 0 → Type 0
Action S E A = S → Result E A × S

module _ {S E : Type 0} where
  abbrev pub pure : {A : Type 0} → A → Action S E A
  pure a s = (ok a, s)

  abbrev pub raise : {A : Type 0} → E → Action S E A
  raise e s = (err e, s)

  abbrev pub modify : (S → S) → Action S E (Unit {0})
  modify f s = (ok tt, f s)

  abbrev pub gets : {A : Type 0} → (S → A) → Action S E A
  gets f s = (ok (f s), s)

  unfoldable pub or_raise : {A : Type 0} → E → Option A → Action S E A
  or_raise e none = raise e
  or_raise e (some a) = pure a

  -- The result of a call, an error too.
  abbrev pub try_call : {A : Type 0} → Action S E A → Action S E (Result E A)
  try_call m s = let (r, s') = m s in (ok r, s')

infixl 5 ◌>>=◌ ◌>>◌
unfoldable pub ◌>>=◌ : {S E A B : Type 0} → Action S E A → (A → Action S E B) → Action S E B
◌>>=◌ m f s = let (r, s') = m s in elim r [ ok a ↦ f a s' | err e ↦ (err e, s') ]

abbrev pub ◌>>◌ : {S E A B : Type 0} → Action S E A → Action S E B → Action S E B
m >> k = m >>= λ _. k

-- A step whose outcome is known.
module _ {S E A B : Type 0} (m : Action S E A) (f : A → Action S E B) {s s' : S} where
  pub bind_ok : {a : A} → m s ≡ (ok a, s') → (m >>= f) s ≡ f a s'
  unfolding ◌>>=◌
  bind_ok e = ap (λ p. elim p.0 [ ok a ↦ f a p.1 | err e ↦ (err e, p.1) ]) e

  pub bind_err : {e : E} → m s ≡ (err e, s') → (m >>= f) s ≡ (err e, s')
  unfolding ◌>>=◌
  bind_err e = ap (λ p. elim p.0 [ ok a ↦ f a p.1 | err e ↦ (err e, p.1) ]) e

pub or_raise-some :
    {S E A : Type 0} (e : E) (o : Option A) (s : S) {a : A}
    → o ≡ some a
    → or_raise e o s ≡ (ok a, s)
unfolding or_raise
or_raise-some e o s h = ap (λ o'. or_raise e o' s) h

-- What holds after an action, however it ends, if something held before.
abbrev pub Leads : {S E A : Type 0} → (S → Type 0) → (S → Type 0) → Action S E A → Type 0
Leads {S} P P' m = (s : S) → P s → P' (m s).1

abbrev pub Keeps : {S E A : Type 0} → (S → Type 0) → Action S E A → Type 0
Keeps P m = Leads P P m

pub err-ok : {E A : Type 0} (e : E) (a : A) → err e ≡ ok a → ⊥
err-ok e a h = cc

pub eq-ok : {E A : Type 0} (r : Result E A) (a b : A) → r ≡ ok a → r ≡ ok b → a ≡ b
eq-ok r a b e f = cc

module _ {S E A B : Type 0} (m : Action S E A) (f : A → Action S E B) where
  -- The second action is one for which the first one's result, and what is known of it, is known.
  pub bind_Leads :
      (P P' : S → Type 0) (Q : A → Type 0)
      → Leads P P' m
      → ((s : S) (a : A) → P s → (m s).0 ≡ ok a → Q a)
      → ((a : A) → Q a → Keeps P' (f a))
      → Leads P P' (m >>= f)
  bind_Leads P P' Q first known second s h = elim (Result-cases (m s).0) [
    | inl (a, e) ↦
        subst (λ (p : Result E B × S). P' p.1) (sym (bind_ok m f (ap (λ r. (r, (m s).1)) e)))
          (second a (known s a h e) (m s).1 (first s h))
    | inr (e, i) ↦
        subst (λ (p : Result E B × S). P' p.1) (sym (bind_err m f (ap (λ r. (r, (m s).1)) i)))
          (first s h)
  ]

  pub bind_Keeps : (P : S → Type 0) → Keeps P m → ((a : A) → Keeps P (f a)) → Keeps P (m >>= f)
  bind_Keeps P first second = bind_Leads P P (λ a. Unit {0}) first (λ s a h e. tt) (λ a u. second a)

  -- A chain that succeeds had a first step that did.
  pub bind_inv :
      (s : S) (b : B)
      → ((m >>= f) s).0 ≡ ok b
      → (a : A) × ((m s).0 ≡ ok a) × ((f a (m s).1).0 ≡ ok b)
  bind_inv s b h = elim (Result-cases (m s).0) [
    | inl (a, e) ↦ (a, e, ap (λ p. p.0) (sym (bind_ok m f (ap (λ r. (r, (m s).1)) e))) ∙ h)
    | inr (e, i) ↦
        absurd (err-ok e b (ap (λ p. p.0) (sym (bind_err m f (ap (λ r. (r, (m s).1)) i))) ∙ h))
  ]

module _ {S E A : Type 0} (e : E) (o : Option A) where
  pub or_raise-Keeps : (P : S → Type 0) → Keeps P (or_raise e o)
  unfolding or_raise
  or_raise-Keeps P s h = elim (Option-cases o) [
    | inl i ↦ rw (i, or_raise) h
    | inr (a, i) ↦ rw (i, or_raise) h
  ]

  pub or_raise_inv : (s : S) (a : A) → (or_raise e o s).0 ≡ ok a → o ≡ some a
  unfolding or_raise
  or_raise_inv s a h = elim (Option-cases o) [
    | inl i ↦ absurd (err-ok e a (ap (λ o'. (or_raise e o' s).0) (sym i) ∙ h))
    | inr (b, i) ↦ i ∙ ap some (eq-ok _ b a (ap (λ o'. (or_raise e o' s).0) i) h)
  ]
