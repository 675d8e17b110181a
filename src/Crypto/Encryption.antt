-- ===== src/Crypto/Encryption.antt =====
-- internal/crypto/login_encryption.go: `LoginEncryption`, which seals and opens packets in place.
pub mod Sealing
pub mod Init
pub mod Opening
use la2go.Prelude.{
  ℕ, ◌+◌, ◌-◌, ◌%◌, ◌<◌, List, [], ◌∷◌, Bool, true, false, leb, ltb, ◌==◌, if◌then◌else◌, length,
  replicate, Result, ok, err, panic, ◌>>=◌, ◌>>◌, guard, bad_block_size, buffer_too_small,
}
use la2go.Bytes.{overwrite}
use la2go.Crypto.Checksum.{append_checksum, verify_checksum}
use la2go.Crypto.XorPass.{enc_xor_pass}
use la2go.Crypto.Blowfish.{Cipher, CipherFactory, new_blowfish_cipher, encrypt, decrypt}

abbrev pub static_blowfish_key : List ℕ
static_blowfish_key =
    0x6b ∷ 0x60 ∷ 0xcb ∷ 0x5b ∷ 0x82 ∷ 0xce ∷ 0x90 ∷ 0xb1 ∷ 0xcc ∷ 0x2b ∷ 0x6c ∷ 0x55 ∷ 0x6c ∷ 0x6c
    ∷ 0x6c ∷ 0x6c ∷ []

pub record LoginEncryption : Type 0 where
  pub static_cipher : Cipher
  pub dynamic_cipher : Cipher
  pub first_packet : Bool

unfoldable pub new_login_encryption : CipherFactory → List ℕ → Result LoginEncryption
new_login_encryption new_cipher dynamic_key = do
  sc ← new_blowfish_cipher new_cipher static_blowfish_key
  dc ← new_blowfish_cipher new_cipher dynamic_key
  ok (record { static_cipher = sc; dynamic_cipher = dc; first_packet = true })

-- `if n%8 != 0 { n += 8 - (n % 8) }`
abbrev pub align8 : ℕ → ℕ
align8 n = if n % 8 == 0 then n else n + (8 - n % 8)

-- `for i := from; i < to; i++ { data[i] = 0 }`
pub zero_fill : List ℕ → ℕ → ℕ → Result (List ℕ)
zero_fill bytes from to =
    if leb to (length bytes) then ok (overwrite from (replicate (to - from) 0) bytes) else panic

-- The size to send, and the buffer.
abbrev pub Sealed : Type 0
Sealed = ℕ × List ℕ

-- Checksum and dynamic Blowfish: what both sides do to a packet that is not the first.
pub seal : LoginEncryption → List ℕ → ℕ → ℕ → Result Sealed
seal le bytes offset size =
    let checksum_size = align8 (size + 4) in
    do
      cleared ← zero_fill bytes (offset + size) (offset + checksum_size)
      summed ← append_checksum cleared offset checksum_size
      sealed ← encrypt le.dynamic_cipher summed offset checksum_size
      ok (checksum_size, sealed)

-- The first packet: the XOR pass under a random key, and static Blowfish.
pub seal_init : ℕ → LoginEncryption → List ℕ → ℕ → ℕ → Result Sealed
seal_init xor_key le bytes offset size =
    let enc_size = align8 (size + 8) + 8 in
    do
      passed ← enc_xor_pass bytes offset enc_size xor_key
      sealed ← encrypt le.static_cipher passed offset enc_size
      ok (enc_size, sealed)

-- `EncryptPacket`; `xor_key` is the random int32 of the first packet. The flag changes before the
-- first packet can fail.
unfoldable pub encrypt_packet :
    ℕ → LoginEncryption → List ℕ → ℕ → ℕ → LoginEncryption × Result Sealed
unfolding seal seal_init
encrypt_packet xor_key le bytes offset size =
    let needed = align8 size + 8 in
    if ltb (length bytes) (offset + needed)
    then (le, err buffer_too_small)
    else if le.first_packet
    then (record le { first_packet = false }, seal_init xor_key le bytes offset size)
    else (le, seal le bytes offset size)

-- `DecryptPacket`: whether the checksum is valid, and the buffer.
unfoldable pub decrypt_packet : LoginEncryption → List ℕ → ℕ → ℕ → Result (Bool × List ℕ)
decrypt_packet le bytes offset size = do
  guard (size % 8 == 0) bad_block_size
  opened ← decrypt le.dynamic_cipher bytes offset size
  valid ← verify_checksum opened offset size
  ok (valid, opened)

pub encrypt_packet_client : LoginEncryption → List ℕ → ℕ → ℕ → Result Sealed
unfolding seal
encrypt_packet_client le bytes offset size =
    if ltb (length bytes) (offset + align8 (size + 4))
    then err buffer_too_small
    else seal le bytes offset size
