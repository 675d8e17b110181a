-- ===== src/Bytes.antt =====
-- Byte slices and Go's encoding/binary over them: little-endian words of any width at an offset.
-- A slice is the list of its bytes; its capacity is taken to be its length.
pub mod Slices
pub mod Words
pub mod Windows
use la2go.Prelude.{
  ℕ, zero, suc, ◌+◌, ◌*◌, ◌/◌, ◌%◌, ◌<◌, List, [], ◌∷◌, ◌++◌, leb, if◌then◌else◌, length, take,
  drop, All, Result, ok, panic,
}

abbrev pub IsByte : ℕ → Type 0
IsByte b = b < 256

abbrev pub IsBytes : List ℕ → Type 0
IsBytes = All IsByte

-- The `k` low bytes of a word, the lowest first.
abbrev pub le_bytes : ℕ → ℕ → List ℕ
le_bytes zero w = []
le_bytes (suc k) w = (w % 256) ∷ le_bytes k (w / 256)

abbrev pub of_le : List ℕ → ℕ
of_le [] = 0
of_le (b ∷ bs) = b + 256 * of_le bs

-- `data[i : i+k]` and `copy(data[i:], bs)`, in range.
unfoldable pub slice : ℕ → ℕ → List ℕ → List ℕ
slice i k bytes = take k (drop i bytes)

unfoldable pub overwrite : ℕ → List ℕ → List ℕ → List ℕ
overwrite zero bs bytes = bs ++ drop (length bs) bytes
overwrite (suc i) bs [] = []
overwrite (suc i) bs (x ∷ bytes) = x ∷ overwrite i bs bytes

-- `binary.LittleEndian.Uint32(data[i:])` and `PutUint32(data[i:], w)`; out of range they panic.
unfoldable pub word_at : List ℕ → ℕ → ℕ
word_at bytes i = of_le (slice i 4 bytes)

unfoldable pub read_u32 : List ℕ → ℕ → Result ℕ
read_u32 bytes i = if leb (i + 4) (length bytes) then ok (word_at bytes i) else panic

unfoldable pub put_word : List ℕ → ℕ → ℕ → List ℕ
put_word bytes i w = overwrite i (le_bytes 4 w) bytes

unfoldable pub write_u32 : List ℕ → ℕ → ℕ → Result (List ℕ)
write_u32 bytes i w = if leb (i + 4) (length bytes) then ok (put_word bytes i w) else panic
