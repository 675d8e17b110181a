-- ===== src/Wire/RoundTrip.antt =====
-- internal/protocol/packet.go: a packet that was written is read.
use la2go.Prelude.{
  ℕ, ◌+◌, ◌-◌, ◌^◌, ◌≤◌, ◌<◌, ◌≡◌, refl, ◌∙◌, List, ◌++◌, true, false, ltb, ◌==◌, length, take,
  replicate, ok, arith,
}
use mathlib.Core.List.{append_assoc}
use la2go.Bytes.{IsBytes, slice, overwrite}
use la2go.Bytes.Slices.{length-slice, length-overwrite, overwrite-IsBytes, slice-overwrite_before}
use la2go.Bytes.Windows.{slice-slice}
use la2go.Crypto.Blowfish.{IsBlockCipher}
use la2go.Crypto.Encryption.{LoginEncryption, align8, decrypt_packet}
use la2go.Crypto.Encryption.Sealing.{align8_lem, replicate-IsBytes, decrypt_packet-encrypt_packet}
use la2go.Crypto.Windows.{decrypt_packet-window, length-decrypt_packet}
use la2go.Wire.Stream.{read_full-append}
use la2go.Wire.Frame.{framed_ok, frame_header, of_le-frame_header}
use la2go.Wire.Protocol.{write_packet, read_packet, opened_payload}

-- A frame that fits the reader's buffer is taken apart.
pub read_packet-frame :
    (enc : LoginEncryption) (buf_len size : ℕ) (payload rest plain : List ℕ)
    → length payload ≡ size
    → 0 < size
    → size ≤ buf_len
    → 2 + size < 2 ^ 16
    → decrypt_packet enc payload 0 size ≡ ok (true, plain)
    → read_packet enc buf_len ((frame_header size ++ payload) ++ rest) ≡ ok (plain, rest)
unfolding read_packet opened_payload
read_packet-frame enc buf_len size payload rest plain width some_bytes fits small opened =
    let total = of_le-frame_header size small in
    let left : 2 + size - 2 ≡ size = omega arith in
    let t1 : ltb (2 + size) 2 ≡ false = ground arith in
    let t2 : (size == 0) ≡ false = ground arith in
    let t3 : ltb buf_len size ≡ false = ground arith in
    rw
      (
        read_packet,
        append_assoc (frame_header size) payload rest,
        read_full-append 2 (frame_header size) (payload ++ rest) refl,
        total,
        left,
        t1,
        t2,
        t3,
        read_full-append size payload rest width,
        width,
        opened,
      )
      refl

module _ (enc : LoginEncryption) (law : IsBlockCipher enc.dynamic_cipher) (buf : List ℕ) (n : ℕ)
    (isb : IsBytes buf) (room : 2 + n + 16 ≤ length buf) where
  -- The buffer behind the payload is set to zero.
  cleared : List ℕ
  cleared = overwrite (2 + n) (replicate 16 0) buf

  length-cleared : length cleared ≡ length buf
  unfolding cleared
  length-cleared = length-overwrite (2 + n) (replicate 16 0) buf (omega arith)

  cleared-IsBytes : IsBytes cleared
  unfolding cleared
  cleared-IsBytes = overwrite-IsBytes (2 + n) _ buf (replicate-IsBytes 16) isb

  -- A packet after the first, written from a buffer of bytes with room for the payload, the header
  -- and 16 bytes more, its length below 2^16, is read by a peer with the same dynamic key and a
  -- buffer that holds it, whatever follows on the stream: the reader takes exactly the bytes
  -- written, and has the payload, followed by padding and checksum up to a multiple of 8.
  pub read_packet-write_packet :
      (xor_key buf_len : ℕ) (rest : List ℕ)
      → enc.first_packet ≡ false
      → align8 (n + 4) ≤ buf_len
      → 2 + align8 (n + 4) < 2 ^ 16
      → (sent : List ℕ) × (plain : List ℕ) × (write_packet xor_key enc buf n ≡ (enc, ok sent))
        × (read_packet enc buf_len (sent ++ rest) ≡ ok (plain, rest))
        × (take n plain ≡ slice 2 n buf)
        × (length plain ≡ align8 (n + 4))
  unfolding write_packet cleared slice
  read_packet-write_packet xor_key buf_len rest later fits small =
      let t = align8 (n + 4) in
      let width = length-cleared in
      let (aligned, above, below) = align8_lem n in
      let (aligned4, above4, below4) = align8_lem (n + 4) in
      let (sealed, plain, done, opened, kept, same) =
        decrypt_packet-encrypt_packet enc law cleared 2 n cleared-IsBytes xor_key later
          (omega arith) in
      let whole : 2 + t ≤ length sealed = omega arith in
      let plain_width =
        length-decrypt_packet enc sealed plain 2 t true law.length-decrypt aligned4 whole opened in
      let part =
        decrypt_packet-window enc sealed plain 2 t true law.length-decrypt aligned4 whole opened in
      let enough : ltb (length buf) (2 + n + 16) ≡ false = ground arith in
      (
        frame_header t ++ slice 2 t sealed,
        slice 2 t plain,
        rw (enough, done, framed_ok t sealed whole) refl,
        read_packet-frame enc buf_len t (slice 2 t sealed) rest (slice 2 t plain)
            (length-slice 2 t sealed whole) (omega arith) fits small part,
        slice-slice 2 t 0 n plain (omega arith)
            ∙ kept
            ∙ slice-overwrite_before 2 n (2 + n) _ buf (omega arith),
        length-slice 2 t plain (omega arith),
      )
