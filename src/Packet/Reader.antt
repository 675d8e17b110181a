-- ===== src/Packet/Reader.antt =====
-- The packet reader. A method returns its value and the reader moved on; no caller goes on with a
-- reader after an error.
use la2go.Prelude.{
  ℕ, zero, suc, ◌≡◌, refl, ◌+◌, ◌-◌, ◌*◌, List, [], ◌∷◌, ◌++◌, true, false, leb, ltb, ◌==◌,
  if◌then◌else◌, length, drop, Result, ok, err, panic, not_enough_data, negative_count,
}
use la2go.Prelude.Int.{ℤ, pos, negsuc, int16, int32, int64}
use la2go.Bytes.{of_le, slice}
use la2go.Packet.Utf16.{utf16_decode}

pub record Reader : Type 0 where
  pub bytes : List ℕ
  pub at : ℕ

unfoldable pub new_reader : List ℕ → Reader
new_reader bytes = record { bytes = bytes; at = 0 }

abbrev pub Read : Type 0 → Type 0
Read A = Reader → Result (A × Reader)

infixl 5 ◌>>=◌
abbrev pub ◌>>=◌ : {A B : Type 0} → Read A → (A → Read B) → Read B
◌>>=◌ m f r = elim (m r) [ ok (a, r') ↦ f a r' | err e ↦ err e | panic ↦ panic ]

abbrev pub pure : {A : Type 0} → A → Read A
pure a r = ok (a, r)

-- A step that succeeds.
pub bind_ok :
    {A B : Type 0} (m : Read A) (f : A → Read B) (r : Reader) {a : A} {r' : Reader}
    → m r ≡ ok (a, r')
    → (m >>= f) r ≡ f a r'
bind_ok m f r e = rw (e, ◌>>=◌)

-- A parser on a new reader.
abbrev pub run : {A : Type 0} → Read A → List ℕ → Result A
run m body = elim (m (new_reader body)) [ ok (a, r) ↦ ok a | err e ↦ err e | panic ↦ panic ]

pub run_ok :
    {A : Type 0} (m : Read A) (body : List ℕ) {a : A} {r : Reader}
    → m (new_reader body) ≡ ok (a, r)
    → run m body ≡ ok a
run_ok m body e = rw (e, run) refl

abbrev pub fail : {A : Type 0} → la2go.Prelude.Error → Read A
fail e r = err e

-- A little-endian word of `k` bytes.
unfoldable pub read_word : ℕ → Read ℕ
read_word k r =
    if ltb (length r.bytes) (r.at + k)
    then err not_enough_data
    else ok (of_le (slice r.at k r.bytes), record r { at = r.at + k })

unfoldable pub read_byte : Read ℕ
read_byte r =
    if leb (length r.bytes) r.at
    then err not_enough_data
    else ok (of_le (slice r.at 1 r.bytes), record r { at = r.at + 1 })

unfoldable pub read_short : Read ℤ
read_short = read_word 2 >>= λ w. pure (int16 w)

unfoldable pub read_int : Read ℤ
read_int = read_word 4 >>= λ w. pure (int32 w)

unfoldable pub read_long : Read ℤ
read_long = read_word 8 >>= λ w. pure (int64 w)

-- `ReadDouble` returns `float64(bits)`: the float64 nearest to the number, not the one whose bits
-- these are. The model keeps the number that is converted.
unfoldable pub read_double : Read ℕ
read_double = read_word 8

-- The loop of `ReadString` on the bytes not yet read, with the units so far and the position.
unfoldable pub units_loop : List ℕ → List ℕ → ℕ → Result (List ℕ × ℕ)
units_loop [] units at = err not_enough_data
units_loop (a ∷ []) units at = err not_enough_data
units_loop (a ∷ b ∷ rest) units at = elim ((a + 256 * b) == 0) [
  | true ↦ ok (units, at + 2)
  | false ↦ units_loop rest (units ++ ((a + 256 * b) ∷ [])) (at + 2)
]

unfoldable pub read_string : Read (List ℕ)
read_string r = elim (units_loop (drop r.at r.bytes) [] r.at) [
  | ok (units, at) ↦ ok (utf16_decode units, record r { at = at })
  | err e ↦ err e
  | panic ↦ panic
]

unfoldable pub read_bytes : ℤ → Read (List ℕ)
read_bytes (negsuc n) r = err negative_count
read_bytes (pos n) r =
    if ltb (length r.bytes) (r.at + n)
    then err not_enough_data
    else ok (slice r.at n r.bytes, record r { at = r.at + n })

unfoldable pub remaining : Reader → ℕ
remaining r = length r.bytes - r.at
