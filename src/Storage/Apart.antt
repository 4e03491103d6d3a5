-- ===== src/Storage/Apart.antt =====
-- The files of two generations of an object, or of two stripes of one generation, have different
-- names, so that a write of one does not touch the other.
use context_store.Prelude.{
  ℕ, zero, suc, append_assoc, ◌^◌, ◌<◌, true, false, ◌==◌, Option, none, some, List, [], ◌∷◌, ◌++◌,
  All, ◌≡◌, ◌≢◌, refl, ap, sym, ◌∙◌, inl, inr, Bool-cases, arith,
}
use context_store.Router.{ObjectKey, split_at}
use context_store.Router.Decimal.{IsDigit, show, show-All}
use context_store.Router.Files.{file_path, version_part, chunk_part, bin, object_digest}
use context_store.Router.Paths.{append_cancel, number_cancel, version_cancel, skip}
use context_store.Storage.Paths.{has_slash, file_name, path_string}
use context_store.Storage.Names.{name_start, path_string-file_path, file_name-push_path}
use context_store.Storage.Tier.{Tier}

has_slash-append :
    (xs ys : List ℕ) → has_slash xs ≡ false → has_slash ys ≡ false → has_slash (xs ++ ys) ≡ false
has_slash-append [] ys h i = i
has_slash-append (x ∷ xs) ys h i = elim (Bool-cases (x == 47)) [
  | inl e ↦ absurd (ground (arith, e))
  | inr e ↦ rw (e) (has_slash-append xs ys (ground arith) i)
]

has_slash-All : (xs : List ℕ) → All IsDigit xs → has_slash xs ≡ false
has_slash-All [] h = refl
has_slash-All (x ∷ xs) h = rw (has_slash-All xs h.1) (ground (arith, h.0))

has_slash-split_at :
    (n : ℕ) (xs : List ℕ) → has_slash xs ≡ false → has_slash (split_at n xs).1 ≡ false
unfolding split_at
has_slash-split_at zero xs h = h
has_slash-split_at (suc n) [] h = refl
has_slash-split_at (suc n) (x ∷ xs) h = has_slash-split_at n xs (ground (arith, h))

-- The end of the name of a whole object, and of that of a stripe.
abbrev pub name_end : Option ℕ → List ℕ
name_end none = bin
name_end (some i) = chunk_part i bin

has_slash-name_end : (o : Option ℕ) → has_slash (name_end o) ≡ false
has_slash-name_end none = refl
has_slash-name_end (some i) =
    has_slash-append (show i) bin (has_slash-All (show i) (show-All i)) refl

abbrev without_bin : Option ℕ → List ℕ
without_bin none = []
without_bin (some i) = chunk_part i []

chunk_bin : (i : ℕ) → chunk_part i bin ≡ chunk_part i [] ++ bin
chunk_bin i = ap (λ n. 46 ∷ 99 ∷ 104 ∷ 117 ∷ 110 ∷ 107 ∷ n) (sym (append_assoc (show i) [] bin))

name_end-bin : (o : Option ℕ) → name_end o ≡ without_bin o ++ bin
name_end-bin none = refl
name_end-bin (some i) = chunk_bin i

version_bin : (g l : ℕ) (xs : List ℕ) → version_part g l (xs ++ bin) ≡ version_part g l xs ++ bin
version_bin g l xs =
    ap (λ n. 46 ∷ 103 ∷ n)
      (ap (λ n. show g ++ (46 ∷ 108 ∷ n)) (sym (append_assoc (show l) xs bin))
        ∙ sym (append_assoc (show g) (46 ∷ 108 ∷ (show l ++ xs)) bin))

has_slash-version_part :
    (g l : ℕ) (xs : List ℕ) → has_slash xs ≡ false → has_slash (version_part g l xs) ≡ false
has_slash-version_part g l xs h =
    has_slash-append (show g) _ (has_slash-All (show g) (show-All g))
      (has_slash-append (show l) xs (has_slash-All (show l) (show-All l)) h)

name_end_cons : (o : Option ℕ) → (rest : List ℕ) × (name_end o ≡ 46 ∷ rest)
name_end_cons none = (_, refl)
name_end_cons (some i) = (_, refl)

module _ (g l g' l' : ℕ) (o o' : Option ℕ) (hg : g < 2 ^ 64) (hl : l < 2 ^ 64) (hg' : g' < 2 ^ 64)
    (hl' : l' < 2 ^ 64) where
  same_generation : version_part g l (name_end o) ≡ version_part g' l' (name_end o') → g ≡ g'
  same_generation e =
      let (xs, hx) = name_end_cons o in
      let (ys, hy) = name_end_cons o' in
      (version_cancel g l g' l' xs ys hg hl hg' hl'
        (ap (version_part g l) (sym hx) ∙ e ∙ ap (version_part g' l') hy)).0

same_stripe :
    (g l i j : ℕ)
    → g < 2 ^ 64
    → l < 2 ^ 64
    → i < 2 ^ 64
    → j < 2 ^ 64
    → version_part g l (name_end (some i)) ≡ version_part g l (name_end (some j))
    → i ≡ j
same_stripe g l i j hg hl hi hj e =
    let (eg, el, rest) = version_cancel g l g l _ _ hg hl hg hl e in
    (number_cancel i j (98 ∷ 105 ∷ 110 ∷ []) (98 ∷ 105 ∷ 110 ∷ []) hi hj (ap (skip 5) rest)).0

module _ (T : Tier) (key : ObjectKey) (plain : has_slash (object_digest T.digest key) ≡ false) where
  -- A file of a version: whole, or one stripe.
  pub record IsFile (path : List ℕ) (g l : ℕ) (o : Option ℕ) : Type 0 where
    pub device : ℕ
    pub names : List (List ℕ)
    pub named : file_path T.digest T.router key device (version_part g l (name_end o)) ≡ some names
    pub joined : path ≡ path_string names

  named_file :
      (path : List ℕ) (g l : ℕ) (o : Option ℕ)
      → IsFile path g l o
      → file_name path ≡ name_start T.digest key ++ version_part g l (name_end o)
  named_file path g l o h =
      let (dir, pushed) = path_string-file_path T.digest T.router key h.device _ h.names h.named in
      ap file_name (h.joined ∙ pushed)
      ∙ file_name-push_path dir _ (
          has_slash-append (name_start T.digest key) _
            (has_slash-split_at 2 _ (has_slash-split_at 2 _ plain))
            (has_slash-version_part g l _ (has_slash-name_end o)))

  -- A write of one file touches another only if their names end alike.
  touched_suffix :
      (p q : List ℕ) (g l g' l' : ℕ) (o o' : Option ℕ)
      → IsFile p g l o
      → IsFile q g' l' o'
      → T.executor.touches p q ≡ true
      → version_part g l (name_end o) ≡ version_part g' l' (name_end o')
  touched_suffix p q g l g' l' o o' hp hq touched =
      let start = name_start T.digest key in
      append_cancel start _ _ (
        sym (named_file p g l o hp)
        ∙ T.executor.touches_lem p q (start ++ version_part g' l' (without_bin o'))
            (named_file q g' l' o' hq
              ∙ ap (λ n. start ++ version_part g' l' n) (name_end-bin o')
              ∙ ap (λ n. start ++ n) (version_bin g' l' (without_bin o'))
              ∙ sym (append_assoc start (version_part g' l' (without_bin o')) bin))
            touched
        ∙ named_file q g' l' o' hq)

  -- A write of one generation leaves the files of another.
  pub generations_apart :
      (p q : List ℕ) (g l g' l' : ℕ) (o o' : Option ℕ)
      → IsFile p g l o
      → IsFile q g' l' o'
      → g < 2 ^ 64
      → l < 2 ^ 64
      → g' < 2 ^ 64
      → l' < 2 ^ 64
      → g ≢ g'
      → T.executor.touches p q ≡ false
  generations_apart p q g l g' l' o o' hp hq hg hl hg' hl' ne =
      elim (Bool-cases (T.executor.touches p q)) [
        | inl e ↦ absurd (
            ne (
              same_generation g l g' l' o o' hg hl hg' hl'
                (touched_suffix p q g l g' l' o o' hp hq e)))
        | inr e ↦ e
      ]

  -- A write of one stripe leaves the other stripes of the version.
  pub stripes_apart :
      (p q : List ℕ) (g l i j : ℕ)
      → IsFile p g l (some i)
      → IsFile q g l (some j)
      → g < 2 ^ 64
      → l < 2 ^ 64
      → i < 2 ^ 64
      → j < 2 ^ 64
      → i ≢ j
      → T.executor.touches p q ≡ false
  stripes_apart p q g l i j hp hq hg hl hi hj ne = elim (Bool-cases (T.executor.touches p q)) [
    | inl e ↦ absurd (
        ne (same_stripe g l i j hg hl hi hj (touched_suffix p q g l g l (some i) (some j) hp hq e)))
    | inr e ↦ e
  ]
