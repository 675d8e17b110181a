-- ===== src/Login/Handshake.antt =====
-- The first packet of a connection: `handleConnection` of internal/login/server.go, up to its loop,
-- and `ReadInitPacket` of internal/testutil/client.go, a client's side of it.
pub mod Fields
pub mod Opened
pub mod Tests
use la2go.Prelude.{
  ℕ, ◌-◌, List, ◌++◌, not, ltb, ◌==◌, if◌then◌else◌, none, some, length, take, drop, Result, ok,
  err, panic, ◌>>=◌, ◌>>◌, guard, read_failed, invalid_length, packet_too_large, packet_too_short,
  invalid_opcode,
}
use la2go.Prelude.Int.{ℤ, int32}
use la2go.Bytes.{of_le, slice, word_at}
use la2go.Crypto.Blowfish.{CipherFactory, new_blowfish_cipher, decrypt}
use la2go.Crypto.XorPass.{dec_xor_pass}
use la2go.Crypto.Encryption.{LoginEncryption, new_login_encryption, static_blowfish_key}
use la2go.Crypto.Rsa.{byte_of, unscramble_modulus}
use la2go.Login.ServerPackets.{init}
use la2go.Wire.Stream.{header_size, read_full}
use la2go.Wire.Protocol.{write_packet}

-- The server writes Init behind the header of its buffer, 170 bytes, and sends it.
unfoldable pub send_init :
    ℕ → LoginEncryption → ℤ → List ℕ → List ℕ → List ℕ → LoginEncryption × Result (List ℕ)
send_init xor_key enc session_id scrambled_modulus blowfish_key buf =
    write_packet xor_key enc
      (take header_size buf
        ++ init (drop header_size buf) session_id scrambled_modulus blowfish_key)
      170

-- What a client knows after the first packet.
pub record LoginClient : Type 0 where
  pub session_id : ℤ
  pub protocol_version : ℕ
  pub rsa_modulus : List ℕ
  pub blowfish_key : List ℕ
  pub enc : LoginEncryption

-- The payload with the encryption taken off: static Blowfish and the backward XOR pass.
unfoldable pub open_init_payload : CipherFactory → List ℕ → Result (List ℕ)
open_init_payload new_cipher payload = do
  static_cipher ← new_blowfish_cipher new_cipher static_blowfish_key
  opened ← decrypt static_cipher payload 0 (length payload)
  dec_xor_pass opened 0 (length payload)

unfoldable pub parse_init : CipherFactory → List ℕ → Result LoginClient
parse_init new_cipher payload = do
  guard (byte_of 0 payload == 0x00) invalid_opcode
  guard (not (ltb (length payload) 170)) packet_too_short
  modulus ← unscramble_modulus (slice 9 128 payload)
  enc ← new_login_encryption new_cipher (slice 153 16 payload)
  ok (record {
    session_id = int32 (word_at payload 1);
    protocol_version = word_at payload 5;
    rsa_modulus = modulus;
    blowfish_key = slice 153 16 payload;
    enc = enc;
  })

-- The client, and what is left of the stream. The packet has to fit `buf_len` bytes.
unfoldable pub read_init_packet : CipherFactory → ℕ → List ℕ → Result (LoginClient × List ℕ)
read_init_packet new_cipher buf_len stream = elim (read_full header_size stream) [
  | none ↦ err read_failed
  | some (header, body) ↦
      let total_len = of_le header in
      let payload_len = total_len - header_size in
      if ltb total_len header_size
      then err invalid_length
      else if ltb buf_len payload_len
      then err packet_too_large
      else elim (read_full payload_len body) [
        | none ↦ err read_failed
        | some (payload, rest) ↦
            open_init_payload new_cipher payload
            >>= (λ opened. parse_init new_cipher opened >>= (λ client. ok (client, rest)))
      ]
]
