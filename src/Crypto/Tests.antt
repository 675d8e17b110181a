-- ===== src/Crypto/Tests.antt =====
-- Runs of the packet encryption on a small buffer, and its theorems there. The block cipher is a
-- stand-in for golang.org/x/crypto/blowfish: it adds one to every byte.
use la2go.Prelude.{
  ℕ, ◌+◌, ◌%◌, ◌≡◌, refl, List, [], ◌∷◌, map, true, false, arith, length, ok, panic,
}
use la2go.Bytes.{IsBytes, slice}
use la2go.Crypto.Blowfish.{Cipher, IsBlockCipher}
use la2go.Crypto.Encryption.{LoginEncryption, encrypt_packet, decrypt_packet}
use la2go.Crypto.Encryption.Sealing.{decrypt_packet-encrypt_packet}
use la2go.Crypto.Encryption.Init.{encrypt_packet_first_panics}

abbrev pub up : ℕ → ℕ
up x = (x + 1) % 256

abbrev pub down : ℕ → ℕ
down x = (x + 255) % 256

abbrev pub shift_cipher : Cipher
shift_cipher = record { encrypt_block = map up; decrypt_block = map down }

length-map_bytes : (f : ℕ → ℕ) (b : List ℕ) → length (map f b) ≡ length b
length-map_bytes f [] = refl
length-map_bytes f (x ∷ b) = omega (arith, length-map_bytes f b)

map-up-IsBytes : (b : List ℕ) → IsBytes b → IsBytes (map up b)
map-up-IsBytes [] h = tt
map-up-IsBytes (x ∷ b) h = (omega arith, map-up-IsBytes b h.1)

map-down-map-up : (b : List ℕ) → IsBytes b → map down (map up b) ≡ b
map-down-map-up [] h = refl
map-down-map-up (x ∷ b) (hx, h) =
    let back : ((x + 1) % 256 + 255) % 256 ≡ x = omega arith in rw (back, map-down-map-up b h)

pub shift_cipher-IsBlockCipher : IsBlockCipher shift_cipher
shift_cipher-IsBlockCipher = record {
  length-encrypt = λ b h. omega (arith, length-map_bytes up b);
  length-decrypt = λ b h. omega (arith, length-map_bytes down b);
  encrypt-IsBytes = map-up-IsBytes;
  decrypt-encrypt = λ b h i. map-down-map-up b i;
}

abbrev pub later_packets : LoginEncryption
later_packets = record {
  static_cipher = shift_cipher;
  dynamic_cipher = shift_cipher;
  first_packet = false;
}

abbrev pub new_connection : LoginEncryption
new_connection = record later_packets { first_packet = true }

-- Two header bytes and a payload that begins 1, 2, 3, in a buffer of 34 bytes.
abbrev pub buffer : List ℕ
buffer =
    0 ∷ 0 ∷ 1 ∷ 2 ∷ 3 ∷ 0 ∷ 0 ∷ 0 ∷ 0 ∷ 0 ∷ 0 ∷ 0 ∷ 0 ∷ 0 ∷ 0 ∷ 0 ∷ 0 ∷ 0 ∷ 0 ∷ 0 ∷ 0 ∷ 0 ∷ 0 ∷ 0
    ∷ 0 ∷ 0 ∷ 0 ∷ 0 ∷ 0 ∷ 0 ∷ 0 ∷ 0 ∷ 0 ∷ 0 ∷ []

decrypt_packet-encrypt_packet_example :
    (sealed : List ℕ) × (plain : List ℕ) × (encrypt_packet 0 later_packets buffer 2 3
      ≡ (later_packets, ok (8, sealed)))
    × (decrypt_packet later_packets sealed 2 8 ≡ ok (true, plain))
    × (slice 2 3 plain ≡ slice 2 3 buffer)
    × (length sealed ≡ 34)
decrypt_packet-encrypt_packet_example =
    decrypt_packet-encrypt_packet later_packets shift_cipher-IsBlockCipher buffer 2 3 (omega arith)
      0 refl (omega arith)

encrypt_packet_first_panics_example : (encrypt_packet 7 new_connection buffer 16 3).1 ≡ panic
encrypt_packet_first_panics_example =
    encrypt_packet_first_panics new_connection buffer 16 3 7 refl (omega arith) (omega arith)
