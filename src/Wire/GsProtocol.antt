-- ===== src/Wire/GsProtocol.antt =====
-- internal/gslistener/protocol.go: `WritePacket` and `ReadPacket` of the game server connections.
-- Lengths are not negative. Neither function looks at the error that the cipher returns.
use la2go.Prelude.{
  ℕ, ◌+◌, ◌-◌, ◌%◌, List, ltb, if◌then◌else◌, none, some, length, take, Result, ok, err, panic,
  ◌>>=◌, read_failed, invalid_length, packet_too_large, bad_checksum,
}
use la2go.Bytes.{of_le, overwrite}
use la2go.Crypto.Blowfish.{Cipher, encrypt, decrypt}
use la2go.Crypto.Checksum.{append_checksum, verify_checksum}
use la2go.Wire.Stream.{header_size, checksum_size, padding_align, buffer_padding, read_full}
use la2go.Wire.Frame.{framed}

-- A call whose error is dropped: the buffer is then as it was.
abbrev pub or_unchanged : List ℕ → Result (List ℕ) → Result (List ℕ)
or_unchanged bytes (ok changed) = ok changed
or_unchanged bytes (err e) = ok bytes
or_unchanged bytes panic = panic

unfoldable pub encrypted_size : ℕ → ℕ
encrypted_size payload_len =
    let data_size = payload_len + checksum_size in
    data_size + (padding_align - data_size % padding_align) % padding_align

unfoldable pub gs_write_packet : Cipher → List ℕ → ℕ → Result (List ℕ)
gs_write_packet cipher buf payload_len =
    let size = encrypted_size payload_len in
    if ltb (length buf) (payload_len + (header_size + buffer_padding))
    then err invalid_length
    else (append_checksum buf header_size size >>= λ summed.
        or_unchanged summed (encrypt cipher summed header_size size) >>= λ sealed.
        framed size sealed)

-- After the read of the payload into the buffer: decryption, the test and `buf[0:payloadLen]`.
unfoldable pub gs_opened : Cipher → List ℕ → ℕ → Result (List ℕ)
gs_opened cipher buf size = or_unchanged buf (decrypt cipher buf 0 size) >>= λ plain.
    verify_checksum plain 0 size >>= λ valid.
    if valid then ok (take (size - checksum_size) plain) else err bad_checksum

unfoldable pub gs_read_packet : Cipher → List ℕ → List ℕ → Result (List ℕ × List ℕ)
gs_read_packet cipher buf stream = elim (read_full header_size stream) [
  | none ↦ err read_failed
  | some (header, body) ↦
      let total_len = of_le header in
      let size = total_len - header_size in
      if ltb total_len header_size
      then err invalid_length
      else if ltb (length buf) size
      then err packet_too_large
      else elim (read_full size body) [
        | none ↦ err read_failed
        | some (payload, rest) ↦
            gs_opened cipher (overwrite 0 payload buf) size >>= λ plain. ok (plain, rest)
      ]
]
