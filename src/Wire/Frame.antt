-- ===== src/Wire/Frame.antt =====
-- The frame of a packet, as internal/protocol/packet.go and internal/gslistener/protocol.go write it:
-- two bytes with the length of the whole, the lower first, and the sealed bytes.
use la2go.Prelude.{
  ℕ, suc, ◌+◌, ◌%◌, ◌^◌, ◌≤◌, ◌<◌, ◌≡◌, refl, ap, ◌∙◌, List, [], ◌∷◌, ◌++◌, leb, if◌then◌else◌,
  true, length, take, Result, ok, panic, arith,
}
use la2go.Bytes.{le_bytes, of_le, overwrite, slice}
use la2go.Bytes.Words.{of_le-le_bytes}
use la2go.Wire.Stream.{header_size}

-- The header and `buf[:totalLen]`.
unfoldable pub framed : ℕ → List ℕ → Result (List ℕ)
framed enc_size sealed =
    let total_len = header_size + enc_size in
    if leb total_len (length sealed)
    then ok (take total_len (overwrite 0 (le_bytes 2 (total_len % 2 ^ 16)) sealed))
    else panic

abbrev pub frame_header : ℕ → List ℕ
frame_header size = le_bytes 2 ((header_size + size) % 2 ^ 16)

-- What is sent: the header and the sealed bytes.
take-header :
    (size : ℕ) (sealed : List ℕ)
    → 2 + size ≤ length sealed
    → take (suc (suc size)) (overwrite 0 (frame_header size) sealed)
      ≡ frame_header size ++ slice 2 size sealed
unfolding overwrite slice
take-header size [] h = absurd (omega arith)
take-header size (a ∷ []) h = absurd (omega arith)
take-header size (a ∷ b ∷ sealed) h = refl

pub framed_ok :
    (size : ℕ) (sealed : List ℕ)
    → 2 + size ≤ length sealed
    → framed size sealed ≡ ok (frame_header size ++ slice 2 size sealed)
unfolding framed
framed_ok size sealed h =
    let room : leb (2 + size) (length sealed) ≡ true = ground arith in
    let e : 2 + size ≡ suc (suc size) = omega arith in
    rw (framed, room)
      (ap ok (
        ap (λ (k : ℕ). take k (overwrite 0 (frame_header size) sealed)) e
        ∙ take-header size sealed h))

-- The length that a reader takes from the header.
pub of_le-frame_header : (size : ℕ) → 2 + size < 2 ^ 16 → of_le (frame_header size) ≡ 2 + size
of_le-frame_header size h =
    let e : (2 + size) % 2 ^ 16 ≡ 2 + size = omega arith in
    of_le-le_bytes 2 ((2 + size) % 2 ^ 16) (omega arith) ∙ e
