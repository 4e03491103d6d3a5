-- ===== src/Storage/Names.antt =====
-- The names of the files of an object: the file of a path that the router gives is what it joined
-- last, and the files of two stripes of one version are apart.
use context_store.Prelude.{
  ℕ, true, false, ◌||◌, Option, none, some, List, [], ◌∷◌, ◌++◌, ◌≡◌, refl, ap, sym, ◌∙◌, inl, inr,
  Bool-cases, Option-cases, arith, append_assoc,
}
use context_store.Router.{ObjectKey, split_at}
use context_store.Router.Files.{
  ShardRouter, file_path, object_digest, device_root, path_component, data_name,
}
use context_store.MemoryTier.Objects.{or_else}
use context_store.Storage.Paths.{
  push_path, path_string, is_empty, is_absolute, ends_in_slash, has_slash, file_name,
}

append-is_empty : (xs : List ℕ) (y : ℕ) (ys : List ℕ) → is_empty (xs ++ y ∷ ys) ≡ false
append-is_empty [] y ys = refl
append-is_empty (x ∷ xs) y ys = refl

append_keeps : (xs ys : List ℕ) → is_empty ys ≡ false → is_empty (xs ++ ys) ≡ false
append_keeps [] ys h = h
append_keeps (x ∷ xs) ys h = refl

push_path-is_empty : (p n : List ℕ) → is_empty n ≡ false → is_empty (push_path p n) ≡ false
unfolding push_path
push_path-is_empty p n h = elim (Bool-cases (is_absolute n)) [
  | inl e ↦ rw (e, push_path) h
  | inr e ↦ elim (Bool-cases (is_empty p || ends_in_slash p)) [
    | inl i ↦ rw (e, i, push_path) (append_keeps p n h)
    | inr i ↦ rw (e, i, push_path) (append-is_empty p 47 n)
  ]
]

file_name_plain : (n : List ℕ) → has_slash n ≡ false → file_name n ≡ n
unfolding file_name
file_name_plain [] h = refl
file_name_plain (b ∷ n) h = ground arith

has_slash_behind : (p n : List ℕ) → has_slash (p ++ 47 ∷ n) ≡ true
has_slash_behind [] n = refl
has_slash_behind (b ∷ p) n = rw (has_slash_behind p n) (ground arith)

file_name_behind : (p n : List ℕ) → has_slash n ≡ false → file_name (p ++ 47 ∷ n) ≡ n
unfolding file_name
file_name_behind [] n h = rw (h, file_name) refl
file_name_behind (b ∷ p) n h = rw (has_slash_behind p n, file_name) (file_name_behind p n h)

ends_split : (p : List ℕ) → ends_in_slash p ≡ true → (q : List ℕ) × (p ≡ q ++ (47 ∷ []))
ends_split [] h = absurd (ground (arith, h))
ends_split (b ∷ []) h = ([], ap (λ c. c ∷ []) (ground arith))
ends_split (b ∷ c ∷ p) h = let (q, e) = ends_split (c ∷ p) h in (b ∷ q, ap (λ rest. b ∷ rest) e)

is_absolute-has_slash : (n : List ℕ) → has_slash n ≡ false → is_absolute n ≡ false
is_absolute-has_slash [] h = refl
is_absolute-has_slash (b ∷ n) h = ground arith

file_name_joined :
    (p n : List ℕ)
    → is_empty p || ends_in_slash p ≡ true
    → has_slash n ≡ false
    → file_name (p ++ n) ≡ n
file_name_joined [] n h i = file_name_plain n i
file_name_joined (b ∷ p) n h i =
    let (q, e) = ends_split (b ∷ p) h in
    ap (λ r. file_name (r ++ n)) e
    ∙ ap file_name (append_assoc q (47 ∷ []) n)
    ∙ file_name_behind q n i

pub file_name-push_path : (p n : List ℕ) → has_slash n ≡ false → file_name (push_path p n) ≡ n
unfolding push_path
file_name-push_path p n h = elim (Bool-cases (is_empty p || ends_in_slash p)) [
  | inl i ↦ rw (is_absolute-has_slash n h, i, push_path) (file_name_joined p n i h)
  | inr i ↦ rw (is_absolute-has_slash n h, i, push_path) (file_name_behind p n h)
]

-- The part of the digest that the name starts with.
abbrev pub name_start : (List ℕ → List ℕ) → ObjectKey → List ℕ
name_start digest key = (split_at 2 (split_at 2 (object_digest digest key)).1).1

pub none-some : {A : Type 0} (a : A) → none ≡ some a → ⊥
none-some a e = cc

module _ (digest : List ℕ → List ℕ) (router : ShardRouter) (key : ObjectKey) (device : ℕ)
    (suffix : List ℕ) where
  rooted :
      (root : List ℕ)
      → device_root device router.devices ≡ some root
      → file_path digest router key device suffix
        ≡ some (
            root
            ∷ router.data_subdir
            ∷ data_name
            ∷ path_component key.namespace
            ∷ (split_at 2 (object_digest digest key)).0
            ∷ (split_at 2 (split_at 2 (object_digest digest key)).1).0
            ∷ (name_start digest key ++ suffix)
            ∷ [])
  unfolding file_path
  rooted root there = rw (there, file_path) refl

  -- The file's name is pushed last.
  pub path_string-file_path :
      (names : List (List ℕ))
      → file_path digest router key device suffix ≡ some names
      → (dir : List ℕ) × (path_string names ≡ push_path dir (name_start digest key ++ suffix))
  unfolding file_path path_string
  path_string-file_path names e =
      let read : Option (List (List ℕ)) → List ℕ = λ o. path_string (or_else o []) in
      elim (Option-cases (device_root device router.devices)) [
        | inl absent ↦
            let e' : file_path digest router key device suffix ≡ none =
              rw (absent, file_path) refl in
            absurd (none-some names (sym e' ∙ e))
        | inr (root, there) ↦ (
          path_string (
              root
              ∷ router.data_subdir
              ∷ data_name
              ∷ path_component key.namespace
              ∷ (split_at 2 (object_digest digest key)).0
              ∷ (split_at 2 (split_at 2 (object_digest digest key)).1).0
              ∷ []),
          sym (ap read e) ∙ ap read (rooted root there),
        )
      ]

cons_of : (p : List ℕ) → is_empty p ≡ false → (b : ℕ) × (rest : List ℕ) × (p ≡ b ∷ rest)
cons_of [] h = absurd (ground (arith, h))
cons_of (b ∷ rest) h = (b, rest, refl)

-- No path of a version is empty.
pub path_string_nonempty :
    (digest : List ℕ → List ℕ) (router : ShardRouter) (key : ObjectKey) (device : ℕ)
    (suffix : List ℕ) (names : List (List ℕ))
    → file_path digest router key device (46 ∷ suffix) ≡ some names
    → (b : ℕ) × (rest : List ℕ) × (path_string names ≡ b ∷ rest)
path_string_nonempty digest router key device suffix names e =
    let (dir, pushed) = path_string-file_path digest router key device (46 ∷ suffix) names e in
    cons_of (path_string names) (
      ap is_empty pushed
      ∙ push_path-is_empty dir _ (append-is_empty (name_start digest key) 46 suffix))
