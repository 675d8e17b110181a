-- ===== src/Crypto/Windows.antt =====
-- internal/crypto: the operations on a range of a buffer read and change that range alone, so they
-- do the same to the range taken out of the buffer.
use la2go.Prelude.{
  ℕ, zero, suc, ◌+◌, ◌*◌, ◌/◌, ◌%◌, ◌≤◌, ◌≡◌, refl, sym, ap, ◌∙◌, List, Bool, true, not, ◌||◌, ◌==◌,
  leb, Bool-cases, inl, inr, arith, length, Result, ok, >>=-eq-ok, ◌>>=◌,
}
use la2go.Bytes.{slice, overwrite}
use la2go.Bytes.Slices.{length-slice}
use la2go.Bytes.Windows.{slice-slice, slice-overwrite_inside, word_at-slice}
use la2go.Crypto.Blowfish.{Cipher, crypt, decrypt}
use la2go.Crypto.Blowfish.Laws.{block, blocks, KeepsLength, length-block, length-blocks, crypt_ok}
use la2go.Crypto.Checksum.{rounds, verify_checksum}
use la2go.Crypto.Checksum.Laws.{xor_words, checksum_loop_ok}
use la2go.Crypto.Encryption.{LoginEncryption, decrypt_packet}

module _ (f : List ℕ → List ℕ) (keep : KeepsLength f) where
  block-window :
      (bytes : List ℕ) (o k i : ℕ)
      → i + 8 ≤ k
      → o + k ≤ length bytes
      → slice o k (block f bytes (o + i)) ≡ block f (slice o k bytes) i
  unfolding block
  block-window bytes o k i h g =
      let width = keep (slice (o + i) 8 bytes) (length-slice (o + i) 8 bytes (omega arith)) in
      slice-overwrite_inside o k i (f (slice (o + i) 8 bytes)) bytes (omega arith) g
      ∙ ap (λ (b : List ℕ). overwrite i (f b) (slice o k bytes)) (sym (slice-slice o k i 8 bytes h))

  blocks-window :
      (n : ℕ) (bytes : List ℕ) (o k i : ℕ)
      → i + 8 * n ≤ k
      → o + k ≤ length bytes
      → slice o k (blocks f n bytes (o + i)) ≡ blocks f n (slice o k bytes) i
  unfolding blocks
  blocks-window zero bytes o k i h g = refl
  blocks-window (suc n) bytes o k i h g =
      let next : o + i + 8 ≡ o + (i + 8) = omega arith in
      let same_length = length-block f keep bytes (o + i) (omega arith) in
      rw next (
        blocks-window n (block f bytes (o + i)) o k (i + 8) (omega arith) (omega arith)
        ∙ ap (λ (b : List ℕ). blocks f n b (i + 8)) (block-window bytes o k i (omega arith) g))

  -- A range, encrypted or decrypted in place, and the range by itself.
  pub crypt-window :
      (bytes : List ℕ) (o k : ℕ)
      → k % 8 ≡ 0
      → o + k ≤ length bytes
      → crypt f (slice o k bytes) 0 k ≡ ok (slice o k (blocks f (k / 8) bytes o))
  crypt-window bytes o k a h =
      let width = length-slice o k bytes h in
      let here : o + 0 ≡ o = omega arith in
      crypt_ok f keep (slice o k bytes) 0 k a (omega arith)
      ∙ ap ok (
          sym (blocks-window (k / 8) bytes o k 0 (omega arith) h)
          ∙ ap (λ (i : ℕ). slice o k (blocks f (k / 8) bytes i)) here)

xor_words-window :
    (n : ℕ) (bytes : List ℕ) (o k i acc : ℕ)
    → i + 4 * n ≤ k
    → xor_words n (slice o k bytes) i acc ≡ xor_words n bytes (o + i) acc
unfolding xor_words
xor_words-window zero bytes o k i acc h = refl
xor_words-window (suc n) bytes o k i acc h =
    let next : o + i + 4 ≡ o + (i + 4) = omega arith in
    rw (next, word_at-slice o k i bytes (omega arith))
      (xor_words-window n bytes o k (i + 4) _ (omega arith))

pub verify_checksum-window :
    (bytes : List ℕ) (o k : ℕ)
    → o + k ≤ length bytes
    → verify_checksum (slice o k bytes) 0 k ≡ verify_checksum bytes o k
unfolding verify_checksum
verify_checksum-window bytes o k h = elim (Bool-cases (not (k % 4 == 0) || leb k 4)) [
  | inl odd ↦ rw odd refl
  | inr whole ↦
      let a : k % 4 ≡ 0 = ground arith in
      let r : rounds o (o + k) ≡ k / 4 = omega arith in
      let r' : rounds 0 (0 + k) ≡ k / 4 = omega arith in
      let here : o + 0 ≡ o = omega arith in
      let width = length-slice o k bytes h in
      let sums : xor_words (k / 4) (slice o k bytes) 0 0 ≡ xor_words (k / 4) bytes o 0 =
        xor_words-window (k / 4) bytes o k 0 0 (omega arith)
        ∙ ap (λ (i : ℕ). xor_words (k / 4) bytes i 0) here in
      rw
        (
          whole,
          r,
          r',
          checksum_loop_ok (k / 4) bytes o 0 (omega arith),
          checksum_loop_ok (k / 4) (slice o k bytes) 0 0 (omega arith),
          sums,
        )
        refl
]

module _ (c : Cipher) (keep : KeepsLength c.decrypt_block) (bytes : List ℕ) (o k : ℕ)
    (a : k % 8 ≡ 0) (h : o + k ≤ length bytes) where
  pub decrypt_ok : decrypt c bytes o k ≡ ok (blocks c.decrypt_block (k / 8) bytes o)
  unfolding decrypt
  decrypt_ok = crypt_ok c.decrypt_block keep bytes o k a h

  pub decrypt-window :
      decrypt c (slice o k bytes) 0 k ≡ ok (slice o k (blocks c.decrypt_block (k / 8) bytes o))
  unfolding decrypt
  decrypt-window = crypt-window c.decrypt_block keep bytes o k a h

  pub length-decrypted : length (blocks c.decrypt_block (k / 8) bytes o) ≡ length bytes
  length-decrypted = length-blocks c.decrypt_block keep (k / 8) bytes o (omega arith)

-- Opening a packet in place, and the packet by itself.
pub decrypt_packet-window :
    (le : LoginEncryption) (bytes plain : List ℕ) (o k : ℕ) (valid : Bool)
    → KeepsLength le.dynamic_cipher.decrypt_block
    → k % 8 ≡ 0
    → o + k ≤ length bytes
    → decrypt_packet le bytes o k ≡ ok (valid, plain)
    → decrypt_packet le (slice o k bytes) 0 k ≡ ok (valid, slice o k plain)
unfolding decrypt_packet
decrypt_packet-window le bytes plain o k valid keep a h opened =
    let c = le.dynamic_cipher in
    let changed = blocks c.decrypt_block (k / 8) bytes o in
    let aligned : (k % 8 == 0) ≡ true = ground arith in
    let rest = rw (aligned, decrypt_ok c keep bytes o k a h) at opened in
    let (v, checked, same) = >>=-eq-ok (verify_checksum changed o k) _ rest in
    let fits : o + k ≤ length changed = omega (arith, length-decrypted c keep bytes o k a h) in
    rw
      (
        aligned,
        decrypt-window c keep bytes o k a h,
        verify_checksum-window changed o k fits,
        checked,
      )
      (ap (λ (r : Result (Bool × List ℕ)). r >>= λ (v, b). ok (v, slice o k b)) same)

pub length-decrypt_packet :
    (le : LoginEncryption) (bytes plain : List ℕ) (o k : ℕ) (valid : Bool)
    → KeepsLength le.dynamic_cipher.decrypt_block
    → k % 8 ≡ 0
    → o + k ≤ length bytes
    → decrypt_packet le bytes o k ≡ ok (valid, plain)
    → length plain ≡ length bytes
unfolding decrypt_packet
length-decrypt_packet le bytes plain o k valid keep a h opened =
    let c = le.dynamic_cipher in
    let changed = blocks c.decrypt_block (k / 8) bytes o in
    let aligned : (k % 8 == 0) ≡ true = ground arith in
    let rest = rw (aligned, decrypt_ok c keep bytes o k a h) at opened in
    let (v, checked, same) = >>=-eq-ok (verify_checksum changed o k) _ rest in
    let e : changed ≡ plain = cc same in ap length (sym e) ∙ length-decrypted c keep bytes o k a h
