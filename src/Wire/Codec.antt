-- ===== src/Wire/Codec.antt =====
-- Bytes on the wire: little-endian words, strings with a length, and reading from a stream.
use context_store.Prelude.{
  ℕ, zero, suc, ◌+◌, ◌-◌, ◌*◌, ◌/◌, ◌%◌, ◌^◌, Bool, not, List, [], ◌∷◌, ◌++◌, length, ltb, ◌==◌,
  if◌then◌else◌,
}
use context_store.Prelude.Int.{ℤ, pos, negsuc}

-- The error of `read_exact` is `closed`; the others are raised by the code itself.
pub data Error : Type 0 where
  closed bad_tag bad_utf8 too_long too_many no_segments no_stripes : Error

pub data Result {ℓ} (A : Type ℓ) : Type ℓ where
  ok : A → Result A
  err : Error → Result A

abbrev pub bind {ℓ κ} : {A : Type ℓ} {B : Type κ} → Result A → (A → Result B) → Result B
bind (ok a) f = f a
bind (err e) f = err e

-- A reader takes what it needs from the bytes that are still to come.
abbrev pub Reader {ℓ} : Type ℓ → Type ℓ
Reader A = List ℕ → Result (A × List ℕ)

abbrev pub pure {ℓ} : {A : Type ℓ} → A → Reader A
pure a s = ok (a, s)

abbrev pub raise {ℓ} : {A : Type ℓ} → Error → Reader A
raise e s = err e

infixl 5 ◌>>=◌
abbrev pub ◌>>=◌ {ℓ κ} : {A : Type ℓ} {B : Type κ} → Reader A → (A → Reader B) → Reader B
m >>= f = λ s. bind (m s) λ (a, s'). f a s'

-- `read_exact(stream, len)`
unfoldable pub read_exact : ℕ → Reader (List ℕ)
read_exact zero s = ok ([], s)
read_exact (suc n) [] = err closed
read_exact (suc n) (b ∷ s) = bind (read_exact n s) λ (bs, s'). ok (b ∷ bs, s')

-- `to_le_bytes` of a word of `n` bytes
unfoldable pub to_le_bytes : ℕ → ℕ → List ℕ
to_le_bytes zero x = []
to_le_bytes (suc n) x = x % 256 ∷ to_le_bytes n (x / 256)

-- `from_le_bytes`
unfoldable pub from_le_bytes : List ℕ → ℕ
from_le_bytes [] = 0
from_le_bytes (b ∷ bs) = b + 256 * from_le_bytes bs

-- `from_le_bytes(read_exact(stream, n)?.try_into().unwrap())`
unfoldable pub read_word : ℕ → Reader ℕ
read_word n = do bs ← read_exact n; pure (from_le_bytes bs)

-- `read_exact(stream, 1)?[0]`
abbrev pub read_byte : Reader ℕ
read_byte = read_word 1

abbrev pub u16 : ℕ → List ℕ
u16 = to_le_bytes 2

abbrev pub u32 : ℕ → List ℕ
u32 = to_le_bytes 4

abbrev pub u64 : ℕ → List ℕ
u64 = to_le_bytes 8

abbrev pub u8 : ℕ → List ℕ
u8 b = b ∷ []

abbrev pub flag : Bool → List ℕ
flag b = u8 (if b then 1 else 0)

-- `read_exact(stream, 1)?[0] != 0`
abbrev pub read_flag : Reader Bool
read_flag = do b ← read_byte; pure (not (b == 0))

-- The bits of an `i64`, and back.
unfoldable pub i64_bits : ℤ → ℕ
i64_bits (pos n) = n
i64_bits (negsuc n) = 2 ^ 64 - 1 - n

unfoldable pub i64_of_bits : ℕ → ℤ
i64_of_bits w = if ltb w (2 ^ 63) then pos w else negsuc (2 ^ 64 - 1 - w)

-- Successive `extend_from_slice` calls on an empty frame.
abbrev pub frame : List (List ℕ) → List ℕ
frame [] = []
frame (part ∷ parts) = part ++ frame parts

-- `for _ in 0..count { … push(read()?) }`
unfoldable pub read_many {ℓ} : {A : Type ℓ} → ℕ → Reader A → Reader (List A)
read_many zero m = pure []
read_many (suc n) m = do x ← m; xs ← read_many n m; pure (x ∷ xs)

-- `write_string_u16`, and the same code where it stands in the place of a call
unfoldable pub write_string_u16 : List ℕ → Result (List ℕ)
write_string_u16 bytes =
    if ltb 65535 (length bytes) then err too_long else ok (u16 (length bytes) ++ bytes)

-- `u16::try_from(len)`, for the length of a list
unfoldable pub count_u16 : ℕ → Result (List ℕ)
count_u16 n = if ltb 65535 n then err too_many else ok (u16 n)

-- A `String` is its bytes; `valid_utf8` is the test of `String::from_utf8`.
module _ (valid_utf8 : List ℕ → Bool) where
  unfoldable pub read_string_u16 : Reader (List ℕ)
  unfolding read_exact
  read_string_u16 = do
    len ← read_word 2
    bytes ← read_exact len
    if valid_utf8 bytes then pure bytes else raise bad_utf8
