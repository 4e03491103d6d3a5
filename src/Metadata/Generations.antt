-- ===== src/Metadata/Generations.antt =====
-- The counter of an object's generations.
use context_store.Prelude.{
  ℕ, suc, ◌^◌, ◌<◌, ◌≤◌, false, Option, none, some, List, eq_bytes, if◌then◌else◌, ltb, ◌≡◌, ap,
  sym, ◌∙◌, arith, inl, inr, Bool-cases, Option-cases,
}
use context_store.Metadata.Redis.{Redis, Json}
use context_store.Metadata.Backend.{block_key, generation_key, next_generation, counter, published}
use context_store.Metadata.Keys.{eq-generation_key, generation-ne-block}

base_lem :
    (current old : ℕ)
    → (current ≤ (if ltb current old then old else current))
      × (old ≤ (if ltb current old then old else current))
base_lem current old = ground arith

eq-some : (o : Option ℕ) (m n : ℕ) → o ≡ some m → o ≡ some n → m ≡ n
eq-some o m n e f = cc

some-none : {A : Type 0} (a : A) → some a ≡ none → ⊥
some-none a e = cc

module _ (J : Json) (R : Redis J.Doc) (prefix : List ℕ) where
  -- The counter of a key.
  abbrev pub counted : List ℕ → R.Store → Option ℕ
  counted key s = counter J R prefix (R.get (generation_key prefix key) s)

  -- The generation of the version that a key shows, 0 if it shows none.
  abbrev pub shown : List ℕ → R.Store → ℕ
  shown key s = published J R prefix (R.get (block_key prefix key) s)

  next_generation-some :
      (key : List ℕ) (n : ℕ) (s : R.Store)
      → counted key s ≡ some n
      → next_generation J R prefix key s ≡ (
        some (suc (if ltb n (shown key s) then shown key s else n)),
        R.set
            (generation_key prefix key)
            (J.number (suc (if ltb n (shown key s) then shown key s else n)))
            s,
      )
  unfolding next_generation
  next_generation-some key n s e = rw (e, next_generation)

  counted-set :
      (key j : List ℕ) (g : ℕ) (s : R.Store)
      → g < 2 ^ 53
      → counted j (R.set (generation_key prefix key) (J.number g) s)
        ≡ (if eq_bytes key j then some g else counted j s)
  counted-set key j g s h = elim (Bool-cases (eq_bytes key j)) [
    | inl e ↦ rw (R.get_set, eq-generation_key prefix, e, J.tonumber_lem g h)
    | inr e ↦ rw (R.get_set, eq-generation_key prefix, e)
  ]

  pub next_generation-counted :
      (key : List ℕ) (g : ℕ) (s : R.Store)
      → (next_generation J R prefix key s).0 ≡ some g
      → (n : ℕ) × (counted key s ≡ some n)
  unfolding next_generation
  next_generation-counted key g s r = elim (Option-cases (counted key s)) [
    | inl e ↦ absurd (some-none g (sym r ∙ rw (e, next_generation)))
    | inr (n, e) ↦ (n, e)
  ]

  -- If the counter of a key is a number and the next one is below 2 ^ 53, the generation given is
  -- above the counter and above the generation that the key shows, and becomes the counter of the
  -- key; the other counters and all the metadata stay.
  pub next_generation_lem :
      (key : List ℕ) (n g : ℕ) (s : R.Store)
      → counted key s ≡ some n
      → (next_generation J R prefix key s).0 ≡ some g
      → g < 2 ^ 53
      → (n < g)
        × (shown key s < g)
        × ((j : List ℕ)
            → counted j (next_generation J R prefix key s).1
              ≡ (if eq_bytes key j then some g else counted j s))
        × ((j : List ℕ)
            → R.get (block_key prefix j) (next_generation J R prefix key s).1
              ≡ R.get (block_key prefix j) s)
  next_generation_lem key n g s e r h =
      let p = next_generation-some key n s e in
      let f : suc (if ltb n (shown key s) then shown key s else n) ≡ g =
        eq-some _ _ g (ap (λ x. x.0) p) r in
      let (a, b) = base_lem n (shown key s) in
      let final : (next_generation J R prefix key s).1
          ≡ R.set (generation_key prefix key) (J.number g) s =
        ap (λ x. x.1) p ∙ ap (λ i. R.set (generation_key prefix key) (J.number i) s) f in
      (
        omega (arith, a, f),
        omega (arith, b, f),
        (λ j. ap (counted j) final ∙ counted-set key j g s h),
        (λ j.
            ap (R.get (block_key prefix j)) final
            ∙ R.get_set _ _ _ s
            ∙ rw (generation-ne-block prefix key j)),
      )

  pub next_generation_other :
      (key j : List ℕ) (g : ℕ) (s : R.Store)
      → (next_generation J R prefix key s).0 ≡ some g
      → g < 2 ^ 53
      → eq_bytes key j ≡ false
      → counted j (next_generation J R prefix key s).1 ≡ counted j s
  next_generation_other key j g s r h other =
      let (n, e) = next_generation-counted key g s r in
      (next_generation_lem key n g s e r h).2 j ∙ rw other
