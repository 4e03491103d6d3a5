-- ===== src/Wire/Reads.antt =====
-- What was written is read back, for the parts of messages and for their sequence.
use mathlib.Core.List.{append_assoc}
use native.Mathlib.Nat.{pow-suc}
use context_store.Prelude.{
  ℕ, zero, suc, ◌/◌, ◌^◌, ◌<◌, ◌≤◌, Bool, true, false, List, [], ◌∷◌, ◌++◌, map, length, All, ◌≡◌,
  refl, ap, arith,
}
use context_store.Prelude.Int.{ℤ, pos, negsuc}
use context_store.Wire.Codec.{
  ok, Reader, pure, ◌>>=◌, read_exact, to_le_bytes, from_le_bytes, read_word, read_flag, flag, u8,
  u16, i64_bits, i64_of_bits, frame, read_many, write_string_u16, count_u16, read_string_u16,
}

abbrev pub IsI64 : ℤ → Type 0
IsI64 (pos n) = n < 2 ^ 63
IsI64 (negsuc n) = n < 2 ^ 63

-- `m` reads `a` off the bytes `xs` and leaves what follows them.
pub record Reads {ℓ} {A : Type ℓ} (m : Reader A) (xs : List ℕ) (a : A) : Type ℓ where
  pub at : (rest : List ℕ) → m (xs ++ rest) ≡ ok (a, rest)

pub Reads-pure {ℓ} : {A : Type ℓ} (a : A) → Reads (pure a) [] a
Reads-pure a = record { at = λ rest. refl }

pub Reads-bind {ℓ κ} :
    {A : Type ℓ} {B : Type κ} {m : Reader A} {xs ys : List ℕ} {a : A} {b : B} (f : A → Reader B)
    → Reads m xs a
    → Reads (f a) ys b
    → Reads (m >>= f) (xs ++ ys) b
Reads-bind {xs = xs} {ys} f h k = record {
  at = λ rest. rw (append_assoc xs ys rest, h.at (ys ++ rest)) (k.at rest);
}

pub Reads-assoc {ℓ} :
    {A : Type ℓ} {m : Reader A} {a : A} (xs ys zs : List ℕ)
    → Reads m (xs ++ (ys ++ zs)) a
    → Reads m ((xs ++ ys) ++ zs) a
Reads-assoc xs ys zs h = rw (append_assoc xs ys zs) h

pub read_exact-Reads : (bytes : List ℕ) → Reads (read_exact (length bytes)) bytes bytes
unfolding read_exact
read_exact-Reads [] = record { at = λ rest. refl }
read_exact-Reads (b ∷ bytes) = record { at = λ rest. rw ((read_exact-Reads bytes).at rest) }

from_le_bytes-to : (n x : ℕ) → x < 256 ^ n → from_le_bytes (to_le_bytes n x) ≡ x
unfolding to_le_bytes from_le_bytes
from_le_bytes-to zero x h = omega arith
from_le_bytes-to (suc n) x h =
    omega (arith, from_le_bytes-to n (x / 256) (omega (arith, pow-suc 256 n)))

length-to_le_bytes : (n x : ℕ) → length (to_le_bytes n x) ≡ n
unfolding to_le_bytes
length-to_le_bytes zero x = refl
length-to_le_bytes (suc n) x = ap suc (length-to_le_bytes n (x / 256))

pub read_word-Reads : (n x : ℕ) → x < 256 ^ n → Reads (read_word n) (to_le_bytes n x) x
unfolding read_word
read_word-Reads n x h = record {
  at = λ rest.
      let p = (read_exact-Reads (to_le_bytes n x)).at rest in
      rw (rw length-to_le_bytes at p, from_le_bytes-to n x h);
}

pub read_byte-Reads : (b : ℕ) → Reads (read_word 1) (u8 b) b
unfolding read_word read_exact from_le_bytes
read_byte-Reads b = record { at = λ rest. ap (λ (n : ℕ). ok (n, rest)) (omega arith) }

pub read_flag-Reads : (b : Bool) → Reads read_flag (flag b) b
read_flag-Reads true = record { at = λ rest. rw ((read_byte-Reads 1).at rest) }
read_flag-Reads false = record { at = λ rest. rw ((read_byte-Reads 0).at rest) }

-- A list is read back, element by element.
pub read_many-Reads {ℓ} :
    {A : Type ℓ} (m : Reader A) (put : A → List ℕ) (xs : List A)
    → All (λ x. Reads m (put x) x) xs
    → Reads (read_many (length xs) m) (frame (map put xs)) xs
unfolding read_many
read_many-Reads m put [] h = record { at = λ rest. refl }
read_many-Reads m put (x ∷ xs) h = record {
  at = λ rest. rw (
    append_assoc (put x) (frame (map put xs)) rest,
    h.0.at (frame (map put xs) ++ rest),
    (read_many-Reads m put xs h.1).at rest,
  );
}

pub i64_of_bits-bits : (n : ℤ) → IsI64 n → (i64_of_bits (i64_bits n) ≡ n) × (i64_bits n < 2 ^ 64)
unfolding i64_of_bits i64_bits
i64_of_bits-bits (pos n) h = ground arith
i64_of_bits-bits (negsuc n) h = ground arith

pub write_string_u16-ok :
    (bytes : List ℕ)
    → length bytes ≤ 65535
    → write_string_u16 bytes ≡ ok (u16 (length bytes) ++ bytes)
unfolding write_string_u16
write_string_u16-ok bytes h = ground arith

pub count_u16-ok : (n : ℕ) → n ≤ 65535 → count_u16 n ≡ ok (u16 n)
unfolding count_u16
count_u16-ok n h = ground arith

pub read_string_u16-Reads :
    (valid_utf8 : List ℕ → Bool) (bytes : List ℕ)
    → length bytes ≤ 65535
    → valid_utf8 bytes ≡ true
    → Reads (read_string_u16 valid_utf8) (u16 (length bytes) ++ bytes) bytes
unfolding read_string_u16
read_string_u16-Reads valid_utf8 bytes h v = record {
  at = λ rest. rw (
    append_assoc (u16 (length bytes)) bytes rest,
    (read_word-Reads 2 (length bytes) (omega arith)).at (bytes ++ rest),
    (read_exact-Reads bytes).at rest,
    v,
  );
}
