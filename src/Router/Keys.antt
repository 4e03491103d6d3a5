-- ===== src/Router/Keys.antt =====
-- Canonical keys are decoded to the object that they name, so no two objects share one.
use context_store.Prelude.{
  ℕ, ◌^◌, ◌<◌, Bool, true, ◌||◌, none, some, List, [], ◌∷◌, ◌++◌, length, length-append, All, ltb,
  leb, ◌≡◌, refl, ap, sym, ◌∙◌, arith,
}
use context_store.Router.{
  ObjectKey, to_string_key, split_once, split_at, get, is_char_boundary, KeyResult, decoded,
  invalid, cut_key, from_string_key,
}
use context_store.Router.Decimal.{IsDigit, show, show-All, parse, parse-show}

-- A string never starts inside of a character.
abbrev pub starts_char : List ℕ → Bool
starts_char [] = true
starts_char (b ∷ bytes) = ltb b 128 || leb 192 b

pub record IsKey (key : ObjectKey) : Type 0 where
  pub short : length key.namespace < 2 ^ 64
  pub starts : starts_char key.object_key ≡ true

split_once-append :
    (xs rest : List ℕ) → All IsDigit xs → split_once (xs ++ 58 ∷ rest) ≡ some (xs, rest)
unfolding split_once
split_once-append [] rest h = refl
split_once-append (b ∷ xs) rest h = rw (split_once-append xs rest h.1) (ground (arith, h.0))

pub split_at-append : (xs ys : List ℕ) → split_at (length xs) (xs ++ ys) ≡ (xs, ys)
unfolding split_at
split_at-append [] ys = refl
split_at-append (x ∷ xs) ys = rw (split_at-append xs ys) refl

get-append : (xs : List ℕ) (b : ℕ) (ys : List ℕ) → get (length xs) (xs ++ b ∷ ys) ≡ some b
unfolding get
get-append [] b ys = refl
get-append (x ∷ xs) b ys = get-append xs b ys

get-length : (xs : List ℕ) → get (length xs) (xs ++ []) ≡ none
unfolding get
get-length [] = refl
get-length (x ∷ xs) = get-length xs

is_char_boundary-append :
    (xs ys : List ℕ) → starts_char ys ≡ true → is_char_boundary (length xs) (xs ++ ys) ≡ true
unfolding is_char_boundary
is_char_boundary-append xs [] h = rw (get-length xs) (ground (arith, length-append xs []))
is_char_boundary-append xs (b ∷ ys) h = rw (get-append xs b ys) (ground arith)

from_string_key-cut :
    (value before after : List ℕ) (n : ℕ)
    → split_once value ≡ some (before, after)
    → parse before ≡ some n
    → from_string_key value ≡ cut_key n after
unfolding from_string_key
from_string_key-cut value before after n e f = rw (e, from_string_key) (rw f refl)

cut_key-append :
    (namespace object_key : List ℕ)
    → starts_char object_key ≡ true
    → cut_key (length namespace) (namespace ++ object_key)
      ≡ decoded (record { namespace = namespace; object_key = object_key })
unfolding cut_key
cut_key-append namespace object_key h =
    rw (split_at-append namespace object_key, is_char_boundary-append namespace object_key h)
      (ground (arith, length-append namespace object_key))

object_of : KeyResult → ObjectKey
object_of (decoded key) = key
object_of (invalid e) = record { namespace = []; object_key = [] }

decoded_same : {a b : ObjectKey} → decoded a ≡ decoded b → a ≡ b
unfolding object_of
decoded_same e = ap object_of e

-- Every object key, whatever colons, slashes or digits its two parts have, is decoded from its
-- canonical key as itself, when its namespace is shorter than 2^64 bytes and its key starts at a
-- character.
pub from_string_key-to :
    (key : ObjectKey) → IsKey key → from_string_key (to_string_key key) ≡ decoded key
unfolding to_string_key
from_string_key-to key h =
    from_string_key-cut (to_string_key key) (show (length key.namespace))
      (key.namespace ++ key.object_key) (length key.namespace)
      (split_once-append (show (length key.namespace)) (key.namespace ++ key.object_key)
        (show-All (length key.namespace)))
      (parse-show (length key.namespace) h.short)
    ∙ cut_key-append key.namespace key.object_key h.starts

-- Two objects with the same canonical key are the same object.
to_string_key-injective :
    (a b : ObjectKey) → IsKey a → IsKey b → to_string_key a ≡ to_string_key b → a ≡ b
to_string_key-injective a b h k e =
    decoded_same (sym (from_string_key-to a h) ∙ ap from_string_key e ∙ from_string_key-to b k)
