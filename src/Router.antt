-- ===== src/Router.antt =====
-- `ObjectKey` and `ShardRouter` of kv-service/server/src/router.rs: how an object is named, and which
-- device and which file hold it.
pub mod Decimal
pub mod Keys
pub mod Files
pub mod Paths
pub mod Groups
mod Tests
use context_store.Prelude.{
  ℕ, zero, suc, ◌+◌, ◌%◌, ◌^◌, Bool, true, false, not, ◌&&◌, ◌||◌, Option, none, some, List, [],
  ◌∷◌, ◌++◌, map, length, ltb, leb, ◌==◌, if◌then◌else◌,
}
use Decimal.{show, parse}

-- Strings are their bytes in UTF-8.
pub record ObjectKey : Type 0 where
  pub namespace : List ℕ
  pub object_key : List ℕ

-- `format!("{}:{}{}", namespace.len(), namespace, object_key)`
unfoldable pub to_string_key : ObjectKey → List ℕ
to_string_key key = show (length key.namespace) ++ 58 ∷ (key.namespace ++ key.object_key)

-- `str::split_once(':')`
unfoldable pub split_once : List ℕ → Option (List ℕ × List ℕ)
split_once [] = none
split_once (b ∷ bytes) =
    let rest = split_once bytes in
    if b == 58
    then some ([], bytes)
    else (elim rest [ none ↦ none | some (before, after) ↦ some (b ∷ before, after) ])

-- `&rest[..n]` and `&rest[n..]`
unfoldable pub split_at : ℕ → List ℕ → List ℕ × List ℕ
split_at zero bytes = ([], bytes)
split_at (suc n) [] = ([], [])
split_at (suc n) (b ∷ bytes) = let (before, after) = split_at n bytes in (b ∷ before, after)

-- The byte at `n`, if there is one.
unfoldable pub get : ℕ → List ℕ → Option ℕ
get n [] = none
get zero (b ∷ bytes) = some b
get (suc n) (b ∷ bytes) = get n bytes

-- `str::is_char_boundary(n)`: at an end of the string, or before a byte that does not continue a
-- character.
unfoldable pub is_char_boundary : ℕ → List ℕ → Bool
unfolding get
is_char_boundary n bytes =
    if n == 0
    then true
    else (elim (get n bytes) [ none ↦ n == length bytes | some b ↦ ltb b 128 || leb 192 b ])

pub data KeyError : Type 0 where
  no_colon bad_length bad_boundary : KeyError

pub data KeyResult : Type 0 where
  decoded : ObjectKey → KeyResult
  invalid : KeyError → KeyResult

-- The part of `from_string_key` after the length was read.
unfoldable pub cut_key : ℕ → List ℕ → KeyResult
unfolding is_char_boundary split_at
cut_key ns_len rest =
    let (namespace, object_key) = split_at ns_len rest in
    if ltb (length rest) ns_len || not (is_char_boundary ns_len rest)
    then invalid bad_boundary
    else decoded (record { namespace = namespace; object_key = object_key })

unfoldable pub from_string_key : List ℕ → KeyResult
unfolding split_once cut_key
from_string_key value = elim (split_once value) [
  | none ↦ invalid no_colon
  | some (len_part, rest) ↦ elim (parse len_part) [
    | none ↦ invalid bad_length
    | some ns_len ↦ cut_key ns_len rest
  ]
]
