-- ===== src/Login/Requests/Received.antt =====
-- The server reads and handles what the client has sent.
use la2go.Prelude.{
  ℕ, ◌+◌, ◌^◌, ◌≤◌, ◌<◌, ◌≡◌, refl, ◌∙◌, List, ◌++◌, true, leb, length, take, ok, arith,
}
use la2go.Bytes.{IsBytes, slice, overwrite}
use la2go.Bytes.Slices.{length-slice, length-overwrite, overwrite-IsBytes, slice-overwrite}
use la2go.Bytes.Windows.{slice-slice}
use la2go.Crypto.Blowfish.{IsBlockCipher}
use la2go.Crypto.Encryption.{LoginEncryption, align8}
use la2go.Crypto.Encryption.Sealing.{align8_lem, decrypt_packet-encrypt_packet_client}
use la2go.Crypto.Windows.{decrypt_packet-window, length-decrypt_packet}
use la2go.Wire.Frame.{framed_ok, frame_header}
use la2go.Wire.Protocol.{read_packet}
use la2go.Wire.RoundTrip.{read_packet-frame}
use la2go.Login.Requests.{send_request}

module _ (enc : LoginEncryption) (law : IsBlockCipher enc.dynamic_cipher) (payload buf : List ℕ)
    (payload_bytes : IsBytes payload) (isb : IsBytes buf) where
  -- What a client sends, from a buffer of bytes with room for it, its length below 2^16, is read by a
  -- server with the same dynamic key and a buffer that holds it, whatever follows on the stream: the
  -- server has the payload, followed by padding and checksum up to a multiple of 8.
  pub read_packet-send_request :
      (buf_len : ℕ) (rest : List ℕ)
      → 2 + align8 (length payload + 4) ≤ length buf
      → align8 (length payload + 4) ≤ buf_len
      → 2 + align8 (length payload + 4) < 2 ^ 16
      → (sent : List ℕ) × (plain : List ℕ) × (send_request enc payload buf ≡ ok sent)
        × (read_packet enc buf_len (sent ++ rest) ≡ ok (plain, rest))
        × (take (length payload) plain ≡ payload)
        × (length plain ≡ align8 (length payload + 4))
  unfolding send_request slice
  read_packet-send_request buf_len rest room fits small =
      let n = length payload in
      let t = align8 (n + 4) in
      let (aligned, above, below) = align8_lem (n + 4) in
      let written = overwrite 2 payload buf in
      let width : length written ≡ length buf = length-overwrite 2 payload buf (omega arith) in
      let (sealed, plain, done, opened, kept, same) =
        decrypt_packet-encrypt_packet_client enc law written 2 n
          (overwrite-IsBytes 2 payload buf payload_bytes isb) (omega arith) in
      let whole : 2 + t ≤ length sealed = omega arith in
      let plain_width =
        length-decrypt_packet enc sealed plain 2 t true law.length-decrypt aligned whole opened in
      let part =
        decrypt_packet-window enc sealed plain 2 t true law.length-decrypt aligned whole opened in
      let enough : leb (2 + n) (length buf) ≡ true = ground arith in
      (
        frame_header t ++ slice 2 t sealed,
        slice 2 t plain,
        rw (enough, done, framed_ok t sealed whole) refl,
        read_packet-frame enc buf_len t (slice 2 t sealed) rest (slice 2 t plain)
            (length-slice 2 t sealed whole) (omega arith) fits small part,
        slice-slice 2 t 0 n plain (omega arith)
            ∙ kept
            ∙ slice-overwrite 2 payload buf (omega arith),
        length-slice 2 t plain (omega arith),
      )
