-- ===== src/Router/Paths.antt =====
-- Versions and chunks of an object never share a file, and a namespace never leads out of its
-- directory.
use context_store.Prelude.{
  ℕ, zero, suc, ◌^◌, ◌<◌, true, false, ◌&&◌, Option, none, some, List, [], ◌∷◌, ◌++◌, length, All,
  ltb, leb, ◌==◌, if◌then◌else◌, ◌≡◌, refl, ap, sym, ◌∙◌, arith, inl, inr, Bool-cases,
}
use context_store.Router.{ObjectKey, split_at}
use context_store.Router.Decimal.{IsDigit, show, show-All, parse, parse-show}
use context_store.Router.Files.{
  ShardRouter, file_path, key_to_versioned_path, chunk_versioned_path, path_component, kept_chars,
  is_kept, no_name, version_part, device_root, object_digest,
}
use context_store.Router.Keys.{split_at-append}

pub append_cancel : (xs ys zs : List ℕ) → xs ++ ys ≡ xs ++ zs → ys ≡ zs
append_cancel xs ys zs e =
    sym (ap (λ p. p.1) (split_at-append xs ys))
    ∙ ap (λ v. (split_at (length xs) v).1) e
    ∙ ap (λ p. p.1) (split_at-append xs zs)

-- What stands before the first dot, and behind it.
at_dot : List ℕ → List ℕ × List ℕ
at_dot [] = ([], [])
at_dot (b ∷ bytes) =
    let (before, after) = at_dot bytes in if b == 46 then ([], bytes) else (b ∷ before, after)

at_dot-append : (xs rest : List ℕ) → All IsDigit xs → at_dot (xs ++ 46 ∷ rest) ≡ (xs, rest)
unfolding at_dot
at_dot-append [] rest h = refl
at_dot-append (b ∷ xs) rest h = rw (at_dot-append xs rest h.1) (ground (arith, h.0))

show-injective : (n k : ℕ) → n < 2 ^ 64 → k < 2 ^ 64 → show n ≡ show k → n ≡ k
show-injective n k h i e =
    ap (λ o. elim o [ none ↦ 0 | some v ↦ v ]) (sym (parse-show n h) ∙ ap parse e ∙ parse-show k i)

-- A number and a dot are told apart from what follows.
pub number_cancel :
    (n k : ℕ) (xs ys : List ℕ)
    → n < 2 ^ 64
    → k < 2 ^ 64
    → show n ++ 46 ∷ xs ≡ show k ++ 46 ∷ ys
    → (n ≡ k) × (xs ≡ ys)
number_cancel n k xs ys h i e =
    let p : (show n, xs) ≡ (show k, ys) =
      sym (at_dot-append (show n) xs (show-All n))
      ∙ ap at_dot e
      ∙ at_dot-append (show k) ys (show-All k) in
    (show-injective n k h i (ap (λ q. q.0) p), ap (λ q. q.1) p)

abbrev pub skip : ℕ → List ℕ → List ℕ
skip zero xs = xs
skip (suc n) [] = []
skip (suc n) (x ∷ xs) = skip n xs

pub version_cancel :
    (g l g' l' : ℕ) (xs ys : List ℕ)
    → g < 2 ^ 64
    → l < 2 ^ 64
    → g' < 2 ^ 64
    → l' < 2 ^ 64
    → version_part g l (46 ∷ xs) ≡ version_part g' l' (46 ∷ ys)
    → (g ≡ g') × (l ≡ l') × (xs ≡ ys)
version_cancel g l g' l' xs ys hg hl hg' hl' e =
    let p =
      number_cancel g g' (108 ∷ (show l ++ (46 ∷ xs))) (108 ∷ (show l' ++ (46 ∷ ys))) hg hg'
        (ap (skip 2) e) in
    let q = number_cancel l l' xs ys hl hl' (ap (skip 1) p.1) in (p.0, q.0, q.1)

-- The last component of a path.
abbrev file_name : Option (List (List ℕ)) → List ℕ
file_name (some (a ∷ b ∷ c ∷ d ∷ e ∷ f ∷ name ∷ [])) = name
file_name o = []

file_of :
    (o : Option (List ℕ)) (a b c d e name : List ℕ) (path : List (List ℕ))
    → (elim o [ none ↦ none | some root ↦ some (root ∷ a ∷ b ∷ c ∷ d ∷ e ∷ name ∷ []) ]) ≡ some path
    → name ≡ file_name (some path)
file_of none a b c d e name path h = ground arith
file_of (some root) a b c d e name path h = ap file_name h

module _ (digest : List ℕ → List ℕ) (router : ShardRouter) (key : ObjectKey) where
  suffix_cancel :
      (i j : ℕ) (xs ys : List ℕ) (path : List (List ℕ))
      → file_path digest router key i xs ≡ some path
      → file_path digest router key j ys ≡ some path
      → xs ≡ ys
  unfolding file_path
  suffix_cancel i j xs ys path p q =
      append_cancel (split_at 2 (split_at 2 (object_digest digest key)).1).1 xs ys (
        file_of (device_root i router.devices) _ _ _ _ _ _ path p
        ∙ sym (file_of (device_root j router.devices) _ _ _ _ _ _ path q))

  module _ {g l g' l' : ℕ} (path : List (List ℕ)) (hg : g < 2 ^ 64) (hl : l < 2 ^ 64)
      (hg' : g' < 2 ^ 64) (hl' : l' < 2 ^ 64) where
    -- Two chunks of one object, on whichever devices, that are written to the same file are the same
    -- chunk of the same generation and the same layout, all of them numbers of 64 bits.
    pub chunk_versioned_path-injective :
        (i j c c' : ℕ)
        → c < 2 ^ 64
        → c' < 2 ^ 64
        → chunk_versioned_path digest router key c i g l ≡ some path
        → chunk_versioned_path digest router key c' j g' l' ≡ some path
        → (c ≡ c') × (g ≡ g') × (l ≡ l')
    unfolding chunk_versioned_path
    chunk_versioned_path-injective i j c c' hc hc' p q =
        let (eg, el, rest) =
          version_cancel g l g' l' _ _ hg hl hg' hl' (suffix_cancel i j _ _ path p q) in
        let n =
          number_cancel c c' (98 ∷ 105 ∷ 110 ∷ []) (98 ∷ 105 ∷ 110 ∷ []) hc hc'
            (ap (skip 5) rest) in
        (n.0, eg, el)

    -- Two versions of one object that is not striped, on whichever devices, that are written to the
    -- same file are the same generation and the same layout, numbers of 64 bits: an overwrite never
    -- touches the file of the version before.
    pub key_to_versioned_path-injective :
        (i j : ℕ)
        → key_to_versioned_path digest router key i g l ≡ some path
        → key_to_versioned_path digest router key j g' l' ≡ some path
        → (g ≡ g') × (l ≡ l')
    unfolding key_to_versioned_path
    key_to_versioned_path-injective i j p q =
        let (eg, el, rest) =
          version_cancel g l g' l' _ _ hg hl hg' hl' (suffix_cancel i j _ _ path p q) in
        (eg, el)

-- A byte that is kept is none that a path gives a meaning to: no slash, no zero byte.
kept_chars_lem : (bytes : List ℕ) → All (λ b. is_kept b ≡ true) (kept_chars bytes)
unfolding kept_chars
kept_chars_lem [] = tt
kept_chars_lem (b ∷ bytes) = elim (Bool-cases (is_kept b)) [
  | inl e ↦ rw (e, kept_chars) (e, kept_chars_lem bytes)
  | inr e ↦ elim (Bool-cases (leb 128 b && ltb b 192)) [
    | inl f ↦ rw (e, f) (kept_chars_lem bytes)
    | inr f ↦ rw (e, f) (refl, kept_chars_lem bytes)
  ]
]

-- Whatever the namespace, its directory is named by letters, digits, dots, dashes and underscores
-- only, at least one of them, and is neither the directory itself nor the one above.
pub path_component_lem :
    (value : List ℕ)
    → All (λ b. is_kept b ≡ true) (path_component value) × (no_name (path_component value) ≡ false)
unfolding path_component
path_component_lem value = elim (Bool-cases (no_name (kept_chars value))) [
  | inl e ↦ rw e ((refl, tt), refl)
  | inr e ↦ rw e (kept_chars_lem value, e)
]
