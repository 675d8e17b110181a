-- ===== src/Wire/Plaintext.antt =====
-- internal/gslistener/protocol.go: `ReadPacket` drops the error by which the cipher refuses a size
-- that is not a multiple of 8.
use la2go.Prelude.{
  ℕ, ◌+◌, ◌-◌, ◌%◌, ◌^◌, ◌≤◌, ◌<◌, ◌≡◌, refl, ap, ◌∙◌, List, ◌++◌, false, ◌==◌, length, take, ok,
  err, arith, bad_block_size,
}
use la2go.Bytes.{IsBytes, slice, overwrite}
use la2go.Bytes.Slices.{length-overwrite}
use la2go.Crypto.Blowfish.{Cipher, decrypt, crypt}
use la2go.Crypto.Checksum.{append_checksum}
use la2go.Crypto.Checksum.Laws.{
  summed, append_checksum_ok, verify_checksum_ok, length-summed, slice-summed,
}
use la2go.Wire.Frame.{frame_header}
use la2go.Wire.GsProtocol.{or_unchanged, gs_read_packet}
use la2go.Wire.GsRoundTrip.{gs_read_packet-frame, gs_opened_ok, slice-placed}

decrypt_err :
    (c : Cipher) (bytes : List ℕ) (size : ℕ)
    → size % 8 ≡ 4
    → decrypt c bytes 0 size ≡ err bad_block_size
unfolding decrypt crypt
decrypt_err c bytes size a = let odd : (size % 8 == 0) ≡ false = ground arith in rw odd refl

-- Bytes whose number is four more than a multiple of 8, at least 12, with an appended checksum and the
-- header in front, are accepted in the clear by a game server connection with any cipher
-- whatever, if they fit its buffer: the packet that is read is those bytes without the checksum.
pub gs_read_packet_plaintext :
    (bytes rbuf rest : List ℕ) (size : ℕ)
    → IsBytes bytes
    → length bytes ≡ size
    → size % 8 ≡ 4
    → 4 < size
    → size ≤ length rbuf
    → 2 + size < 2 ^ 16
    → (sent : List ℕ) × (append_checksum bytes 0 size ≡ ok sent)
      × ((cipher : Cipher)
          → gs_read_packet cipher rbuf ((frame_header size ++ sent) ++ rest)
            ≡ ok (take (size - 4) bytes, rest))
unfolding slice
gs_read_packet_plaintext bytes rbuf rest size isb width odd big fits small =
    let a4 : size % 4 ≡ 0 = omega arith in
    let whole : 0 + size ≤ length bytes = omega arith in
    let sent = summed bytes 0 size isb a4 big whole in
    let sent_width = length-summed bytes 0 size isb a4 big whole in
    let sent_size : length sent ≡ size = sent_width ∙ width in
    let placed = overwrite 0 sent rbuf in
    let placed_width = length-overwrite 0 sent rbuf (omega arith) in
    (
      sent,
      append_checksum_ok bytes 0 size isb a4 big whole,
      λ cipher. gs_read_packet-frame cipher rbuf sent rest _ size sent_size fits small (
          gs_opened_ok cipher placed sent placed size (omega arith)
            (ap (or_unchanged placed) (decrypt_err cipher placed size odd)) refl
            (slice-placed sent rbuf size sent_size fits)
            (verify_checksum_ok bytes 0 size isb a4 big whole)
          ∙ ap ok (slice-summed bytes 0 size isb a4 big whole 0 (size - 4) (omega arith))),
    )
