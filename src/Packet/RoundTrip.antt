-- ===== src/Packet/RoundTrip.antt =====
-- What the writer wrote, the reader returns, and it stands behind it.
pub mod Text
pub mod Chains
use mathlib.Core.List.{append_assoc}
use la2go.Prelude.{
  ℕ, zero, suc, ◌+◌, ◌*◌, ◌/◌, ◌%◌, ◌^◌, ◌≤◌, ◌<◌, ◌≡◌, refl, sym, ap, ◌∙◌, List, [], ◌∷◌, ◌++◌,
  arith, length, drop, take, ltb, leb, Result, ok, length-append, take-length-append,
  drop-length-append,
}
use la2go.Prelude.Int.{ℤ, IsInt, int16-word, int32-word, int64-word, word}
use la2go.Bytes.{of_le, slice}
use la2go.Bytes.Slices.{slice-append}
use la2go.Packet.Reader.{Reader, Read, bind_ok, read_word, read_short, read_int, read_long}
use la2go.Packet.Writer.{Writer, byte_at, write_short, write_int, write_long}

-- A word behind `pre`.
read_word-append :
    (k : ℕ) (pre bs rest : List ℕ)
    → length bs ≡ k
    → read_word k (record { bytes = (pre ++ bs) ++ rest; at = length pre })
      ≡ ok (of_le bs, record { bytes = (pre ++ bs) ++ rest; at = length (pre ++ bs) })
unfolding read_word
read_word-append k pre bs rest e =
    let total = length-append (pre ++ bs) rest in
    let front = length-append pre bs in
    let at : length pre + k ≡ length (pre ++ bs) = omega arith in
    let read : slice (length pre) k ((pre ++ bs) ++ rest) ≡ bs =
      rw (← e) (rw append_assoc (slice-append pre bs rest)) in
    rw (read, at) (ground arith)

short_bytes : (p : ℕ) → p < 2 ^ 16 → of_le (byte_at p 0 ∷ byte_at p 8 ∷ []) ≡ p
short_bytes p h = omega arith

int_bytes :
    (p : ℕ) → p < 2 ^ 32 → of_le (byte_at p 0 ∷ byte_at p 8 ∷ byte_at p 16 ∷ byte_at p 24 ∷ []) ≡ p
int_bytes p h = omega arith

long_bytes :
    (p : ℕ)
    → p < 2 ^ 64
    → of_le (
        byte_at p 0
        ∷ byte_at p 8
        ∷ byte_at p 16
        ∷ byte_at p 24
        ∷ byte_at p 32
        ∷ byte_at p 40
        ∷ byte_at p 48
        ∷ byte_at p 56
        ∷ [])
      ≡ p
long_bytes p h = omega arith

word-lt : (m : ℕ) (z : ℤ) → 0 < m → word m z < m
word-lt m z h = ground arith

-- An int16 that was written, whatever stands before and behind it, is read back, and the reader
-- stands behind it.
pub read_short-write_short :
    (w : Writer) (val : ℤ) (rest : List ℕ)
    → IsInt (2 ^ 15) val
    → let bytes = (write_short w val).buf ++ rest in
      read_short (record { bytes = bytes; at = length w.buf })
      ≡ ok (val, record { bytes = bytes; at = length (write_short w val).buf })
unfolding read_short write_short
read_short-write_short w val rest h =
    let p = word (2 ^ 16) val in
    let bs = byte_at p 0 ∷ byte_at p 8 ∷ [] in
    bind_ok (read_word 2) _ _ (read_word-append 2 w.buf bs rest refl)
    ∙ rw (short_bytes p (word-lt (2 ^ 16) val (omega arith)), int16-word val h)

-- An int32 that was written, whatever stands before and behind it, is read back, and the reader
-- stands behind it.
pub read_int-write_int :
    (w : Writer) (val : ℤ) (rest : List ℕ)
    → IsInt (2 ^ 31) val
    → let bytes = (write_int w val).buf ++ rest in
      read_int (record { bytes = bytes; at = length w.buf })
      ≡ ok (val, record { bytes = bytes; at = length (write_int w val).buf })
unfolding read_int write_int
read_int-write_int w val rest h =
    let p = word (2 ^ 32) val in
    let bs = byte_at p 0 ∷ byte_at p 8 ∷ byte_at p 16 ∷ byte_at p 24 ∷ [] in
    bind_ok (read_word 4) _ _ (read_word-append 4 w.buf bs rest refl)
    ∙ rw (int_bytes p (word-lt (2 ^ 32) val (omega arith)), int32-word val h)

-- An int64 that was written, whatever stands before and behind it, is read back, and the reader
-- stands behind it.
pub read_long-write_long :
    (w : Writer) (val : ℤ) (rest : List ℕ)
    → IsInt (2 ^ 63) val
    → let bytes = (write_long w val).buf ++ rest in
      read_long (record { bytes = bytes; at = length w.buf })
      ≡ ok (val, record { bytes = bytes; at = length (write_long w val).buf })
unfolding read_long write_long
read_long-write_long w val rest h =
    let p = word (2 ^ 64) val in
    let bs =
      byte_at p 0
      ∷ byte_at p 8
      ∷ byte_at p 16
      ∷ byte_at p 24
      ∷ byte_at p 32
      ∷ byte_at p 40
      ∷ byte_at p 48
      ∷ byte_at p 56
      ∷ [] in
    bind_ok (read_word 8) _ _ (read_word-append 8 w.buf bs rest refl)
    ∙ rw (long_bytes p (word-lt (2 ^ 64) val (omega arith)), int64-word val h)
