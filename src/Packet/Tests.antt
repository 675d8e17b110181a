-- ===== src/Packet/Tests.antt =====
-- Runs of the packet reader and writer on small packets.
use la2go.Prelude.{ℕ, ◌≡◌, inl, inr, List, [], ◌∷◌, ◌++◌, length, arith, ok}
use la2go.Packet.Reader.{read_string}
use la2go.Packet.Writer.{Writer, write_string}
use la2go.Packet.RoundTrip.Text.{IsText, read_string-write_string}

abbrev written : Writer
written = record { buf = 9 ∷ [] }

-- "a" and the emoji U+1F600, which takes a surrogate pair.
abbrev text : List ℕ
text = 97 ∷ 0x1f600 ∷ []

text-IsText : IsText text
text-IsText = (
  (omega arith, omega arith, inl (omega arith)),
  ((omega arith, omega arith, inr (omega arith)), tt),
)

read_string-write_string_example :
    read_string (record { bytes = (write_string written text).buf ++ (5 ∷ []); at = 1 })
    ≡ ok (
      text,
      record {
        bytes = (write_string written text).buf ++ (5 ∷ []);
        at = length (write_string written text).buf;
      },
    )
read_string-write_string_example = read_string-write_string written text (5 ∷ []) text-IsText
