-- ===== src/Packet/Writer.antt =====
-- The packet writer. Its buffer grows as needed; a signed value is written by its bit pattern.
use la2go.Prelude.{ℕ, ◌+◌, ◌-◌, ◌/◌, ◌%◌, ◌^◌, bit_and, List, [], ◌∷◌, ◌++◌, leb, if◌then◌else◌}
use la2go.Prelude.Int.{ℤ, word}

pub record Writer : Type 0 where
  pub buf : List ℕ

unfoldable pub new_writer : Writer
new_writer = record { buf = [] }

abbrev append : Writer → List ℕ → Writer
append w bs = record w { buf = w.buf ++ bs }

-- `byte(val >> s)` of an integer with the bit pattern `p`.
abbrev pub byte_at : ℕ → ℕ → ℕ
byte_at p s = p / 2 ^ s % 256

unfoldable pub write_byte : Writer → ℕ → Writer
write_byte w b = append w (b ∷ [])

unfoldable pub write_short : Writer → ℤ → Writer
write_short w val = let p = word (2 ^ 16) val in append w (byte_at p 0 ∷ byte_at p 8 ∷ [])

unfoldable pub write_int : Writer → ℤ → Writer
write_int w val =
    let p = word (2 ^ 32) val in
    append w (byte_at p 0 ∷ byte_at p 8 ∷ byte_at p 16 ∷ byte_at p 24 ∷ [])

unfoldable pub write_long : Writer → ℤ → Writer
write_long w val =
    let p = word (2 ^ 64) val in
    append w (
      byte_at p 0
      ∷ byte_at p 8
      ∷ byte_at p 16
      ∷ byte_at p 24
      ∷ byte_at p 32
      ∷ byte_at p 40
      ∷ byte_at p 48
      ∷ byte_at p 56
      ∷ [])

-- `r := r - 0x10000`, `high` and `low`, each a uint16.
abbrev pub high_surrogate : ℕ → ℕ
high_surrogate r = ((r - 0x10000) / 2 ^ 10 + 0xd800) % 2 ^ 16

abbrev pub low_surrogate : ℕ → ℕ
low_surrogate r = (bit_and (r - 0x10000) 0x3ff + 0xdc00) % 2 ^ 16

unfoldable pub rune_bytes : ℕ → List ℕ
rune_bytes r =
    if leb r 0xffff
    then byte_at r 0 ∷ byte_at r 8 ∷ []
    else byte_at (high_surrogate r) 0
      ∷ byte_at (high_surrogate r) 8
      ∷ byte_at (low_surrogate r) 0
      ∷ byte_at (low_surrogate r) 8
      ∷ []

-- The loop of `WriteString` over the code points.
unfoldable pub write_runes : Writer → List ℕ → Writer
write_runes w [] = w
write_runes w (r ∷ s) = write_runes (append w (rune_bytes r)) s

unfoldable pub write_string : Writer → List ℕ → Writer
write_string w s = append (write_runes w s) (0 ∷ 0 ∷ [])

unfoldable pub write_bytes : Writer → List ℕ → Writer
write_bytes w bs = append w bs
