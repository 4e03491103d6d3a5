-- ===== src/Wire/Fields.antt =====
-- The values that fit the fields of a message.
use context_store.Prelude.{ℕ, ◌^◌, ◌<◌, ◌≤◌, Bool, true, List, ◌++◌, length, ◌≡◌}
use context_store.Wire.Codec.{
  Result, ok, Reader, read_word, read_string_u16, u16, u32, u64, write_string_u16,
}
use context_store.Wire.Reads.{Reads, read_word-Reads, read_string_u16-Reads, write_string_u16-ok}

abbrev pub IsU32 : ℕ → Type 0
IsU32 x = x < 2 ^ 32

abbrev pub IsU64 : ℕ → Type 0
IsU64 x = x < 2 ^ 64

-- A string that is text, and short enough for a length of 16 bits.
pub record IsText (valid_utf8 : List ℕ → Bool) (bytes : List ℕ) : Type 0 where
  pub short : length bytes ≤ 65535
  pub utf8 : valid_utf8 bytes ≡ true

-- A string on the wire.
abbrev pub text : List ℕ → List ℕ
text bytes = u16 (length bytes) ++ bytes

pub u32-Reads : (x : ℕ) → IsU32 x → Reads (read_word 4) (u32 x) x
u32-Reads x h = read_word-Reads 4 x h

pub u64-Reads : (x : ℕ) → IsU64 x → Reads (read_word 8) (u64 x) x
u64-Reads x h = read_word-Reads 8 x h

module _ (valid_utf8 : List ℕ → Bool) {bytes : List ℕ} (h : IsText valid_utf8 bytes) where
  pub text-Reads : Reads (read_string_u16 valid_utf8) (text bytes) bytes
  text-Reads = read_string_u16-Reads valid_utf8 bytes h.short h.utf8

  pub write_text : write_string_u16 bytes ≡ ok (text bytes)
  write_text = write_string_u16-ok bytes h.short

-- The sender produces a frame, and the receiver reads the message off it and leaves what follows.
pub record Carries {A : Type 0} (sent : Result (List ℕ)) (recv : Reader A) (msg : A) : Type 0 where
  pub bytes : List ℕ
  pub sends : sent ≡ ok bytes
  pub reads : Reads recv bytes msg
