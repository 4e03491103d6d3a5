-- ===== src/Storage/Paths.antt =====
-- Paths of Unix as Rust reads them: `PathBuf::push`, `Path::components` and `Path::starts_with`, and
-- the string of a path that the router joined.
use context_store.Prelude.{
  ℕ, Bool, true, false, ◌&&◌, ◌||◌, ◌==◌, List, [], ◌∷◌, ◌++◌, eq_bytes, if◌then◌else◌,
}

abbrev pub is_absolute : List ℕ → Bool
is_absolute [] = false
is_absolute (b ∷ bytes) = b == 47

abbrev pub ends_in_slash : List ℕ → Bool
ends_in_slash [] = false
ends_in_slash (b ∷ []) = b == 47
ends_in_slash (b ∷ c ∷ bytes) = ends_in_slash (c ∷ bytes)

abbrev pub is_empty : List ℕ → Bool
is_empty [] = true
is_empty (b ∷ bytes) = false

-- `PathBuf::push`: an absolute path replaces the one it is pushed on, and a separator is added where
-- it is needed.
unfoldable pub push_path : List ℕ → List ℕ → List ℕ
push_path path name =
    if is_absolute name
    then name
    else if is_empty path || ends_in_slash path
    then path ++ name
    else path ++ 47 ∷ name

unfoldable pub push_all : List ℕ → List (List ℕ) → List ℕ
unfolding push_path
push_all path [] = path
push_all path (name ∷ names) = push_all (push_path path name) names

-- `PathBuf::from(root).join(…)`, as a string
unfoldable pub path_string : List (List ℕ) → List ℕ
unfolding push_all
path_string [] = []
path_string (root ∷ names) = push_all root names

abbrev pub onto : ℕ → List (List ℕ) → List (List ℕ)
onto b [] = (b ∷ []) ∷ []
onto b (part ∷ parts) = (b ∷ part) ∷ parts

-- What stands between the separators.
unfoldable pub split_slash : List ℕ → List (List ℕ)
split_slash [] = [] ∷ []
split_slash (b ∷ bytes) = let rest = split_slash bytes in if b == 47 then [] ∷ rest else onto b rest

abbrev pub is_dot : List ℕ → Bool
is_dot part = eq_bytes part (46 ∷ [])

-- Empty parts and dots are dropped.
unfoldable pub kept_parts : List (List ℕ) → List (List ℕ)
kept_parts [] = []
kept_parts (part ∷ parts) =
    let rest = kept_parts parts in if is_empty part || is_dot part then rest else part ∷ rest

abbrev pub first_parts : List (List ℕ) → List (List ℕ)
first_parts [] = []
first_parts (part ∷ parts) =
    if is_dot part then part ∷ kept_parts parts else kept_parts (part ∷ parts)

-- `Path::components`: the root, written as a separator, or a dot at the start, and the names.
unfoldable pub components : List ℕ → List (List ℕ)
unfolding split_slash kept_parts
components path =
    if is_absolute path
    then (47 ∷ []) ∷ kept_parts (split_slash path)
    else first_parts (split_slash path)

unfoldable pub is_prefix : List (List ℕ) → List (List ℕ) → Bool
is_prefix [] parts = true
is_prefix (p ∷ ps) [] = false
is_prefix (p ∷ ps) (q ∷ qs) = eq_bytes p q && is_prefix ps qs

-- `Path::starts_with` and the equality of paths, by their components
unfoldable pub starts_with : List ℕ → List ℕ → Bool
unfolding is_prefix components
starts_with path base = is_prefix (components base) (components path)

unfoldable pub eq_parts : List (List ℕ) → List (List ℕ) → Bool
eq_parts [] [] = true
eq_parts [] (q ∷ qs) = false
eq_parts (p ∷ ps) [] = false
eq_parts (p ∷ ps) (q ∷ qs) = eq_bytes p q && eq_parts ps qs

unfoldable pub eq_path : List ℕ → List ℕ → Bool
unfolding eq_parts components
eq_path a b = eq_parts (components a) (components b)

abbrev pub has_slash : List ℕ → Bool
has_slash [] = false
has_slash (b ∷ bytes) = b == 47 || has_slash bytes

-- What stands behind the last separator.
unfoldable pub file_name : List ℕ → List ℕ
file_name [] = []
file_name (b ∷ bytes) =
    let rest = file_name bytes in
    if has_slash bytes then rest else if b == 47 then bytes else b ∷ bytes
