-- ===== src/Wire/Protocol.antt =====
-- internal/protocol/packet.go: `WritePacket` and `ReadPacket` of the client connections. A written
-- packet is the bytes that are handed to the connection, which is taken to accept them.
use la2go.Prelude.{
  ℕ, ◌+◌, ◌-◌, List, ltb, ◌==◌, if◌then◌else◌, none, some, length, replicate, Result, ok, err,
  ◌>>=◌, buffer_too_small, read_failed, invalid_length, empty_packet, packet_too_large,
  bad_checksum,
}
use la2go.Bytes.{of_le, overwrite}
use la2go.Crypto.Encryption.{LoginEncryption, encrypt_packet, decrypt_packet}
use la2go.Wire.Frame.{framed}
use la2go.Wire.Stream.{header_size, buffer_padding, read_full}

-- `xor_key` is the random word of the first packet.
unfoldable pub write_packet : ℕ → LoginEncryption → List ℕ → ℕ → LoginEncryption × Result (List ℕ)
write_packet xor_key enc buf payload_len =
    let needed = header_size + payload_len + buffer_padding in
    if ltb (length buf) needed
    then (enc, err buffer_too_small)
    else (let cleared = overwrite (header_size + payload_len) (replicate buffer_padding 0) buf in
        let (enc', done) = encrypt_packet xor_key enc cleared header_size payload_len in
        (enc', done >>= λ (enc_size, sealed). framed enc_size sealed))

-- The opened payload, if its checksum is valid.
unfoldable pub opened_payload : LoginEncryption → List ℕ → List ℕ → Result (List ℕ × List ℕ)
opened_payload enc payload rest =
    decrypt_packet enc payload 0 (length payload) >>= λ (valid, plain).
    if valid then ok (plain, rest) else err bad_checksum

-- The payload and what is left of the stream. The packet has to fit `buf_len` bytes.
unfoldable pub read_packet : LoginEncryption → ℕ → List ℕ → Result (List ℕ × List ℕ)
read_packet enc buf_len stream = elim (read_full header_size stream) [
  | none ↦ err read_failed
  | some (header, body) ↦
      let total_len = of_le header in
      let payload_len = total_len - header_size in
      if ltb total_len header_size
      then err invalid_length
      else if payload_len == 0
      then err empty_packet
      else if ltb buf_len payload_len
      then err packet_too_large
      else elim (read_full payload_len body) [
        | none ↦ err read_failed
        | some (payload, rest) ↦ opened_payload enc payload rest
      ]
]
