-- ===== src/Crypto/Rsa.antt =====
-- internal/crypto/rsa.go, and `RSAEncryptWithModulus` of internal/testutil/client.go. A big.Int is a
-- natural number, and `Exp` with a modulus is the remainder of the power, as math/big documents it.
pub mod Loops
pub mod Scrambling
pub mod Numbers
pub mod Modular
pub mod Garner
pub mod RoundTrip
pub mod Tests
use mathlib.Core.List.{reverse}
use la2go.Prelude.{
  ℕ, zero, suc, ◌+◌, ◌-◌, ◌*◌, ◌/◌, ◌%◌, ◌^◌, bit_xor, List, [], ◌∷◌, ◌++◌, Bool, ltb, leb, ◌==◌,
  ◌&&◌, if◌then◌else◌, Option, none, some, length, replicate, Result, ok, err, panic, check, guard,
  ◌>>◌, invalid_length, generation_failed, drop, ◌>>=◌,
}
use la2go.Prelude.Int.{ℤ, pos, negsuc, sub_ℕ, times_ℤ, word}
use la2go.Bytes.{of_le}

-- `bytes[i]` and `bytes[i] = v`, in range.
unfoldable pub byte_of : ℕ → List ℕ → ℕ
byte_of i [] = 0
byte_of zero (b ∷ bytes) = b
byte_of (suc i) (b ∷ bytes) = byte_of i bytes

unfoldable pub set_byte : ℕ → ℕ → List ℕ → List ℕ
set_byte i v [] = []
set_byte zero v (b ∷ bytes) = v ∷ bytes
set_byte (suc i) v (b ∷ bytes) = b ∷ set_byte i v bytes

-- `for i := range n { bytes[to+i] ^= bytes[from+i] }`
unfoldable pub xor_loop : ℕ → ℕ → ℕ → List ℕ → List ℕ
xor_loop zero to from bytes = bytes
xor_loop (suc n) to from bytes =
    xor_loop n (suc to) (suc from)
      (set_byte to (bit_xor (byte_of to bytes) (byte_of from bytes)) bytes)

-- `for i := range n` with the two bytes at `i + j` and `i + k` exchanged.
unfoldable pub swap_loop : ℕ → ℕ → ℕ → List ℕ → List ℕ
swap_loop zero j k bytes = bytes
swap_loop (suc n) j k bytes =
    swap_loop n (suc j) (suc k) (set_byte k (byte_of j bytes) (set_byte j (byte_of k bytes) bytes))

unfoldable pub scramble_modulus : List ℕ → Result (List ℕ)
scramble_modulus modulus =
    check (length modulus == 128)
    >> ok (xor_loop 64 64 0 (xor_loop 4 0x0D 0x34 (xor_loop 64 0 64 (swap_loop 4 0 0x4D modulus))))

unfoldable pub unscramble_modulus : List ℕ → Result (List ℕ)
unscramble_modulus scrambled =
    check (length scrambled == 128)
    >> ok
        (swap_loop 4 0 0x4D (xor_loop 64 0 64 (xor_loop 4 0x0D 0x34 (xor_loop 64 64 0 scrambled))))

-- `BitLen`, `Bytes` without leading zeros, and `SetBytes`. The number itself is enough fuel.
unfoldable pub bits : ℕ → ℕ → ℕ
bits zero n = 0
bits (suc fuel) n = let rest = bits fuel (n / 2) in if n == 0 then 0 else suc rest

unfoldable pub bit_len : ℕ → ℕ
bit_len n = bits n n

unfoldable pub low_bytes : ℕ → ℕ → List ℕ
low_bytes zero n = []
low_bytes (suc fuel) n =
    let rest = low_bytes fuel (n / 256) in if n == 0 then [] else (n % 256) ∷ rest

unfoldable pub big_bytes : ℕ → List ℕ
big_bytes n = reverse (low_bytes n n)

unfoldable pub set_bytes : List ℕ → ℕ
set_bytes bytes = of_le (reverse bytes)

-- Zeros in front up to a size, as far as there is room.
unfoldable pub pad_front : ℕ → List ℕ → List ℕ
pad_front size bytes =
    if ltb (length bytes) size then replicate (size - length bytes) 0 ++ bytes else bytes

-- What `Precompute` leaves in a key.
pub record Precomputed : Type 0 where
  pub dp : ℕ
  pub dq : ℕ
  pub qinv : ℕ

pub record PrivateKey : Type 0 where
  pub n : ℕ
  pub d : ℕ
  pub primes : List ℕ
  pub precomputed : Option Precomputed

-- Garner's formula; `Mod` of math/big is not negative.
unfoldable pub garner : ℕ → ℕ → ℕ → ℕ → ℕ → ℕ
garner p q qinv m1 m2 = word p (times_ℤ (sub_ℕ m1 m2) qinv) * q + m2

unfoldable pub private_power : PrivateKey → ℕ → ℕ
private_power key c = elim key.precomputed [
  | none ↦ c ^ key.d % key.n
  | some pre ↦ elim key.primes [
    | p ∷ q ∷ more ↦ garner p q pre.qinv (c ^ pre.dp % p) (c ^ pre.dq % q)
    | p ∷ [] ↦ c ^ key.d % key.n
    | [] ↦ c ^ key.d % key.n
  ]
]

unfoldable pub rsa_decrypt_no_padding : PrivateKey → List ℕ → Result (List ℕ)
rsa_decrypt_no_padding key ciphertext =
    let key_size = bit_len key.n / 8 in
    guard (length ciphertext == key_size) invalid_length
    >> ok (pad_front key_size (big_bytes (private_power key (set_bytes ciphertext))))

-- A block of `size` bytes under the public exponent.
unfoldable pub rsa_block : ℕ → List ℕ → List ℕ → List ℕ
rsa_block size modulus plaintext =
    pad_front size (big_bytes (set_bytes plaintext ^ 65537 % set_bytes modulus))

unfoldable pub rsa_encrypt_with_modulus : List ℕ → List ℕ → Result (List ℕ)
rsa_encrypt_with_modulus modulus plaintext =
    guard (length modulus == 128) invalid_length
    >> (guard (length plaintext == 128) invalid_length >> ok (rsa_block 128 modulus plaintext))

pub record RsaKeyPair : Type 0 where
  pub private_key : PrivateKey
  pub scrambled_modulus : List ℕ

-- The modulus as `size` bytes: a zero in front of one byte more is dropped, a short one is filled.
unfoldable pub modulus_bytes : ℕ → ℕ → List ℕ
modulus_bytes size n =
    let bytes = big_bytes n in
    pad_front size
      (if (length bytes == suc size) && (byte_of 0 bytes == 0) then drop 1 bytes else bytes)

-- `generated` is the key `rsa.GenerateKey` returns, or `none` for its error; `precompute` is
-- `Precompute` of crypto/rsa.
unfoldable pub generate_rsa_key_pair :
    (PrivateKey → PrivateKey) → Option PrivateKey → Result RsaKeyPair
generate_rsa_key_pair precompute none = err generation_failed
generate_rsa_key_pair precompute (some key) =
    scramble_modulus (modulus_bytes 128 key.n)
    >>= (λ scrambled. ok (record { private_key = precompute key; scrambled_modulus = scrambled }))

unfoldable pub generate_rsa_key_pair_512 : (PrivateKey → PrivateKey) → PrivateKey → RsaKeyPair
generate_rsa_key_pair_512 precompute key = record {
  private_key = precompute key;
  scrambled_modulus = modulus_bytes 64 key.n;
}
