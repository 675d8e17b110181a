-- ===== src/Crypto/Blowfish.antt =====
-- internal/crypto/blowfish.go: `BlowfishCipher`, ECB over a range of a buffer. The block cipher
-- itself is golang.org/x/crypto/blowfish, a parameter here.
pub mod Laws
use la2go.Prelude.{
  ℕ, zero, suc, ◌+◌, ◌/◌, ◌%◌, ◌≡◌, List, leb, ◌==◌, if◌then◌else◌, length, Option, some, none,
  Result, ok, panic, err, Error, ◌>>=◌, ◌>>◌, guard, bad_block_size, exceeds_data, bad_cipher_key,
}
use la2go.Bytes.{IsBytes, slice, overwrite}

-- `*blowfish.Cipher`: its two methods on a block of 8 bytes.
pub record Cipher : Type 0 where
  pub encrypt_block : List ℕ → List ℕ
  pub decrypt_block : List ℕ → List ℕ

-- The documented behaviour of a block cipher, used as a hypothesis.
pub record IsBlockCipher (c : Cipher) : Type 0 where
  pub length-encrypt : (b : List ℕ) → length b ≡ 8 → length (c.encrypt_block b) ≡ 8
  pub length-decrypt : (b : List ℕ) → length b ≡ 8 → length (c.decrypt_block b) ≡ 8
  pub encrypt-IsBytes : (b : List ℕ) → IsBytes b → IsBytes (c.encrypt_block b)
  pub decrypt-encrypt :
      (b : List ℕ) → length b ≡ 8 → IsBytes b → c.decrypt_block (c.encrypt_block b) ≡ b

-- `blowfish.NewCipher` refuses some keys.
abbrev pub CipherFactory : Type 0
CipherFactory = List ℕ → Option Cipher

unfoldable pub new_blowfish_cipher : CipherFactory → List ℕ → Result Cipher
new_blowfish_cipher new_cipher key = elim (new_cipher key) [
  | none ↦ err bad_cipher_key
  | some c ↦ ok c
]

-- The loop of `Encrypt` and `Decrypt` at index `i`, with `left` blocks to go.
pub blocks_loop : (List ℕ → List ℕ) → ℕ → List ℕ → ℕ → Result (List ℕ)
blocks_loop f zero bytes i = ok bytes
blocks_loop f (suc left) bytes i =
    (if leb (i + 8) (length bytes) then ok (overwrite i (f (slice i 8 bytes)) bytes) else panic)
    >>= λ bytes'. blocks_loop f left bytes' (i + 8)

unfoldable pub crypt : (List ℕ → List ℕ) → List ℕ → ℕ → ℕ → Result (List ℕ)
crypt f bytes offset size =
    guard (size % 8 == 0) bad_block_size
    >> (guard (leb (offset + size) (length bytes)) exceeds_data
        >> blocks_loop f ((size + 7) / 8) bytes offset)

unfoldable pub encrypt : Cipher → List ℕ → ℕ → ℕ → Result (List ℕ)
unfolding crypt
encrypt c bytes offset size = crypt c.encrypt_block bytes offset size

unfoldable pub decrypt : Cipher → List ℕ → ℕ → ℕ → Result (List ℕ)
unfolding crypt
decrypt c bytes offset size = crypt c.decrypt_block bytes offset size
