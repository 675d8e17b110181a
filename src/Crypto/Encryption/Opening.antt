-- ===== src/Crypto/Encryption/Opening.antt =====
-- The first packet, opened where a client has received it.
use la2go.Prelude.{
  ℕ, ◌+◌, ◌%◌, ◌≤◌, ◌≡◌, refl, List, true, length, ok, arith, ◌>>=◌, >>=-eq-ok, ok-injective,
}
use la2go.Bytes.{slice}
use la2go.Crypto.Blowfish.{IsBlockCipher, CipherFactory, new_blowfish_cipher, decrypt}
use la2go.Crypto.Windows.{decrypt_ok, decrypt-window, length-decrypted}
use la2go.Crypto.XorPass.{dec_xor_pass}
use la2go.Crypto.XorPass.Windows.{dec_xor_pass-window}
use la2go.Crypto.Encryption.{LoginEncryption, new_login_encryption, static_blowfish_key}
use la2go.Crypto.Encryption.Init.{open_init}

-- A range that is opened in place is opened by itself.
pub open_init-window :
    (le : LoginEncryption) (bytes plain : List ℕ) (o k : ℕ)
    → IsBlockCipher le.static_cipher
    → k % 8 ≡ 0
    → 12 ≤ k
    → o + k ≤ length bytes
    → open_init le bytes o k ≡ ok plain
    → (decrypt le.static_cipher (slice o k bytes) 0 k >>= λ passed. dec_xor_pass passed 0 k)
      ≡ ok (slice o k plain)
unfolding open_init
open_init-window le bytes plain o k law a big h opened =
    let c = le.static_cipher in
    let keep = law.length-decrypt in
    let passed = rw (decrypt_ok c keep bytes o k a h) at opened in
    rw (decrypt-window c keep bytes o k a h) (
      dec_xor_pass-window o k _ plain big (omega (arith, length-decrypted c keep bytes o k a h))
        passed)

-- A new encryption has a cipher under the static key, and waits for its first packet.
pub new_login_encryption_lem :
    (new_cipher : CipherFactory) (key : List ℕ) (le : LoginEncryption)
    → new_login_encryption new_cipher key ≡ ok le
    → (new_blowfish_cipher new_cipher static_blowfish_key ≡ ok le.static_cipher)
      × (le.first_packet ≡ true)
unfolding new_login_encryption
new_login_encryption_lem new_cipher key le h =
    let (sc, first, rest) = >>=-eq-ok (new_blowfish_cipher new_cipher static_blowfish_key) _ h in
    let (dc, second, last) = >>=-eq-ok (new_blowfish_cipher new_cipher key) _ rest in
    let same = ok-injective _ le last in rw (← same) (first, refl)
