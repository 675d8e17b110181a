-- ===== src/Packet/RoundTrip/Chains.antt =====
-- Packets of several fields: what a chain of writes puts into a buffer, the chain of reads returns.
use mathlib.Core.List.{append_assoc, append-nil}
use la2go.Prelude.{ℕ, ◌^◌, ◌≡◌, sym, ◌∙◌, List, [], ◌∷◌, ◌++◌, length, ok, ap}
use la2go.Prelude.Int.{ℤ, IsInt}
use la2go.Packet.Reader.{read_int, read_string}
use la2go.Packet.Writer.{Writer, write_int, write_string, write_runes}
use la2go.Packet.RoundTrip.{read_int-write_int}
use la2go.Packet.RoundTrip.Text.{
  IsText, read_string-write_string, write_runes-text_bytes, text_bytes,
}

-- A writer had these bytes at some time, and others behind them came later.
abbrev pub Grows : Writer → List ℕ → Type 0
Grows w bytes = (rest : List ℕ) × (bytes ≡ w.buf ++ rest)

pub Grows-self : (w : Writer) → Grows w w.buf
Grows-self w = ([], sym (append-nil w.buf))

Grows-back :
    (w : Writer) (bs bytes : List ℕ) → Grows (record { buf = w.buf ++ bs }) bytes → Grows w bytes
Grows-back w bs bytes (rest, e) = (bs ++ rest, e ∙ append_assoc w.buf bs rest)

module _ (w : Writer) (bytes : List ℕ) where
  pub write_int-Grows : (val : ℤ) → Grows (write_int w val) bytes → Grows w bytes
  unfolding write_int
  write_int-Grows val g = Grows-back w _ bytes g

  pub write_string-Grows : (s : List ℕ) → Grows (write_string w s) bytes → Grows w bytes
  unfolding write_string
  write_string-Grows s (rest, e) = Grows-back w (text_bytes s) bytes (
    (0 ∷ 0 ∷ []) ++ rest,
    e
        ∙ (append_assoc (write_runes w s).buf (0 ∷ 0 ∷ []) rest
            ∙ ap (λ (v : Writer). v.buf ++ (0 ∷ 0 ∷ rest)) (write_runes-text_bytes w s)),
  )

  pub read_int-Grows :
      (val : ℤ)
      → IsInt (2 ^ 31) val
      → Grows (write_int w val) bytes
      → read_int (record { bytes = bytes; at = length w.buf })
        ≡ ok (val, record { bytes = bytes; at = length (write_int w val).buf })
  read_int-Grows val h (rest, e) = rw e (read_int-write_int w val rest h)

  pub read_string-Grows :
      (s : List ℕ)
      → IsText s
      → Grows (write_string w s) bytes
      → read_string (record { bytes = bytes; at = length w.buf })
        ≡ ok (s, record { bytes = bytes; at = length (write_string w s).buf })
  read_string-Grows s h (rest, e) = rw e (read_string-write_string w s rest h)
