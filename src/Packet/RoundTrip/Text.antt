-- ===== src/Packet/RoundTrip/Text.antt =====
-- The round trip of `WriteString` and `ReadString`.
use mathlib.Core.List.{append_assoc, append-nil}
use la2go.Prelude.{
  ℕ, ◌+◌, ◌-◌, ◌*◌, ◌/◌, ◌%◌, ◌^◌, ◌≤◌, ◌<◌, ◌≡◌, refl, ap, ◌∙◌, ◌⊎◌, inl, inr, List, [], ◌∷◌, ◌++◌,
  true, false, arith, length, drop, leb, if◌then◌else◌, All, Result, ok, length-append,
  drop-length-append, Bool-cases,
}
use la2go.Prelude.Bits.{bit_and_low10}
use la2go.Packet.Utf16.{utf16_decode}
use la2go.Packet.Reader.{Reader, units_loop, read_string}
use la2go.Packet.Writer.{
  Writer, byte_at, high_surrogate, low_surrogate, rune_bytes, write_runes, write_string,
}

-- A code point that is no surrogate and not 0, which ends a string on the wire.
abbrev pub IsScalar : ℕ → Type 0
IsScalar r = (0 < r) × (r < 0x110000) × ((r < 0xd800) ⊎ (0xe000 ≤ r))

abbrev pub IsText : List ℕ → Type 0
IsText = All IsScalar

-- The units of a text.
units_of : List ℕ → List ℕ
units_of [] = []
units_of (r ∷ s) =
    let rest = units_of s in
    if leb r 0xffff then r ∷ rest else high_surrogate r ∷ low_surrogate r ∷ rest

pub text_bytes : List ℕ → List ℕ
text_bytes [] = []
text_bytes (r ∷ s) = rune_bytes r ++ text_bytes s

pub write_runes-text_bytes :
    (w : Writer) (s : List ℕ) → write_runes w s ≡ record w { buf = w.buf ++ text_bytes s }
unfolding write_runes text_bytes
write_runes-text_bytes w [] = rw append-nil
write_runes-text_bytes w (r ∷ s) =
    write_runes-text_bytes (record w { buf = w.buf ++ rune_bytes r }) s
    ∙ ap (λ (b : List ℕ). record w { buf = b }) (append_assoc w.buf (rune_bytes r) (text_bytes s))

-- One unit of the loop.
units_loop_step :
    (u : ℕ) (rest units : List ℕ) (at : ℕ)
    → 0 < u
    → u < 2 ^ 16
    → units_loop (byte_at u 0 ∷ byte_at u 8 ∷ rest) units at
      ≡ units_loop rest (units ++ (u ∷ [])) (at + 2)
unfolding units_loop
units_loop_step u rest units at pos small =
    let e : byte_at u 0 + 256 * byte_at u 8 ≡ u = omega arith in rw (e, units_loop) (ground arith)

surrogates_lem :
    (r : ℕ)
    → 0xffff < r
    → r < 0x110000
    → (high_surrogate r ≡ (r - 0x10000) / 0x400 + 0xd800)
      × (low_surrogate r ≡ (r - 0x10000) % 0x400 + 0xdc00)
surrogates_lem r above below = (omega arith, omega (arith, bit_and_low10 (r - 0x10000)))

rune_bytes_bmp : (r : ℕ) → leb r 0xffff ≡ true → rune_bytes r ≡ byte_at r 0 ∷ byte_at r 8 ∷ []
unfolding rune_bytes
rune_bytes_bmp r e = rw e

rune_bytes_pair :
    (r : ℕ)
    → leb r 0xffff ≡ false
    → rune_bytes r
      ≡ byte_at (high_surrogate r) 0
        ∷ byte_at (high_surrogate r) 8
        ∷ byte_at (low_surrogate r) 0
        ∷ byte_at (low_surrogate r) 8
        ∷ []
unfolding rune_bytes
rune_bytes_pair r e = rw e

ok_pair :
    {us vs : List ℕ} {m n : ℕ}
    → us ≡ vs
    → m ≡ n
    → ◌≡◌ {A = Result (List ℕ × ℕ)} (ok (us, m)) (ok (vs, n))
ok_pair p q = cc

-- The loop reads the units of a text up to the terminator.
units_loop-text :
    (s rest units : List ℕ) (at : ℕ)
    → IsText s
    → units_loop (text_bytes s ++ (0 ∷ 0 ∷ rest)) units at
      ≡ ok (units ++ units_of s, at + length (text_bytes s) + 2)
unfolding text_bytes units_of
units_loop-text [] rest units at h =
    unfold units_loop in rw append-nil (ap (λ (n : ℕ). ok (units, n)) (omega arith))
units_loop-text (r ∷ s) rest units at (hr, h) = elim (Bool-cases (leb r 0xffff)) [
  | inl bmp ↦
      rw (bmp, rune_bytes_bmp r bmp)
        (units_loop_step r _ units at hr.0 (ground arith)
          ∙ units_loop-text s rest (units ++ (r ∷ [])) (at + 2) h
          ∙ ok_pair (append_assoc units (r ∷ []) (units_of s)) (omega arith))
  | inr supp ↦
      rw (supp, rune_bytes_pair r supp)
        (units_loop_step (high_surrogate r) _ units at (ground arith) (omega arith)
          ∙ units_loop_step (low_surrogate r) _ (units ++ (high_surrogate r ∷ [])) (at + 2)
              (ground (arith, surrogates_lem r)) (omega arith)
          ∙ units_loop-text s rest _ (at + 2 + 2) h
          ∙ ok_pair (simp append_assoc) (omega arith))
]

decode_cons :
    (u : ℕ) (units : List ℕ)
    → (u < 0xd800) ⊎ (0xe000 ≤ u)
    → utf16_decode (u ∷ units) ≡ u ∷ utf16_decode units
unfolding utf16_decode
decode_cons u [] h = ground arith
decode_cons u (v ∷ units) h = ground arith

decode_pair :
    (r : ℕ) (units : List ℕ)
    → 0xffff < r
    → r < 0x110000
    → utf16_decode (high_surrogate r ∷ low_surrogate r ∷ units) ≡ r ∷ utf16_decode units
unfolding utf16_decode
decode_pair r units above below =
    let (high, low) = surrogates_lem r above below in rw (high, low) (ground arith)

utf16_decode-units_of : (s : List ℕ) → IsText s → utf16_decode (units_of s) ≡ s
unfolding units_of
utf16_decode-units_of [] h = unfold utf16_decode in refl
utf16_decode-units_of (r ∷ s) (hr, h) = elim (Bool-cases (leb r 0xffff)) [
  | inl bmp ↦ rw bmp (rw (decode_cons r (units_of s) hr.2) (ap (◌∷◌ r) (utf16_decode-units_of s h)))
  | inr supp ↦
      rw supp
        (decode_pair r (units_of s) (ground arith) hr.1 ∙ ap (◌∷◌ r) (utf16_decode-units_of s h))
]

read_string_ok :
    (r : Reader) {units : List ℕ} {at : ℕ}
    → units_loop (drop r.at r.bytes) [] r.at ≡ ok (units, at)
    → read_string r ≡ ok (utf16_decode units, record r { at = at })
unfolding read_string
read_string_ok r e = rw (e, read_string)

-- A text of code points that are neither 0 nor surrogates, written with whatever stands before and
-- behind it, is read back, and the reader stands behind its terminator.
pub read_string-write_string :
    (w : Writer) (s rest : List ℕ)
    → IsText s
    → let bytes = (write_string w s).buf ++ rest in
      read_string (record { bytes = bytes; at = length w.buf })
      ≡ ok (s, record { bytes = bytes; at = length (write_string w s).buf })
unfolding write_string
read_string-write_string w s rest h =
    let buffer : (write_string w s).buf ≡ (w.buf ++ text_bytes s) ++ (0 ∷ 0 ∷ []) =
      rw (write_string, write_runes-text_bytes w s) refl in
    let bytes = ((w.buf ++ text_bytes s) ++ (0 ∷ 0 ∷ [])) ++ rest in
    let unread : drop (length w.buf) bytes ≡ text_bytes s ++ (0 ∷ 0 ∷ rest) =
      rw (append_assoc, append_assoc) (drop-length-append w.buf _) in
    let whole : length w.buf + length (text_bytes s) + 2
        ≡ length ((w.buf ++ text_bytes s) ++ (0 ∷ 0 ∷ [])) =
      omega (
        arith,
        length-append w.buf (text_bytes s),
        length-append (w.buf ++ text_bytes s) (0 ∷ 0 ∷ []),
      ) in
    rw buffer (
      read_string_ok (record { bytes = bytes; at = length w.buf })
        (ap (λ (left : List ℕ). units_loop left [] (length w.buf)) unread
          ∙ units_loop-text s rest [] (length w.buf) h)
      ∙ rw (utf16_decode-units_of s h, whole) refl)
