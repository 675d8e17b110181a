-- ===== src/Crypto/Blowfish/Laws.antt =====
-- Decryption undoes encryption over any range of whole blocks.
use la2go.Prelude.{
  ℕ, zero, suc, ◌+◌, ◌*◌, ◌/◌, ◌%◌, ◌≤◌, ◌≡◌, refl, sym, ap, ◌∙◌, List, arith, length, ok,
}
use la2go.Bytes.{IsBytes, slice, overwrite}
use la2go.Bytes.Slices.{
  length-slice, length-overwrite, slice-overwrite, slice-overwrite_after, slice-overwrite_before,
  overwrite-slice, overwrite-overwrite, overwrite_comm, slice-IsBytes,
}
use la2go.Crypto.Blowfish.{Cipher, IsBlockCipher, blocks_loop, crypt, encrypt, decrypt}

-- One block replaced.
unfoldable pub block : (List ℕ → List ℕ) → List ℕ → ℕ → List ℕ
block f bytes i = overwrite i (f (slice i 8 bytes)) bytes

-- `n` blocks replaced, from `i` on.
unfoldable pub blocks : (List ℕ → List ℕ) → ℕ → List ℕ → ℕ → List ℕ
blocks f zero bytes i = bytes
blocks f (suc n) bytes i = blocks f n (block f bytes i) (i + 8)

abbrev pub KeepsLength : (List ℕ → List ℕ) → Type 0
KeepsLength f = (b : List ℕ) → length b ≡ 8 → length (f b) ≡ 8

module _ (f : List ℕ → List ℕ) (keep : KeepsLength f) where
  length-image : (bytes : List ℕ) (i : ℕ) → i + 8 ≤ length bytes → length (f (slice i 8 bytes)) ≡ 8
  length-image bytes i h = keep (slice i 8 bytes) (length-slice i 8 bytes h)

  pub length-block :
      (bytes : List ℕ) (i : ℕ) → i + 8 ≤ length bytes → length (block f bytes i) ≡ length bytes
  unfolding block
  length-block bytes i h =
      length-overwrite i (f (slice i 8 bytes)) bytes (omega (arith, length-image bytes i h))

  pub length-blocks :
      (n : ℕ) (bytes : List ℕ) (i : ℕ)
      → i + 8 * n ≤ length bytes
      → length (blocks f n bytes i) ≡ length bytes
  unfolding blocks
  length-blocks zero bytes i h = refl
  length-blocks (suc n) bytes i h =
      let same_length = length-block bytes i (omega arith) in
      length-blocks n (block f bytes i) (i + 8) (omega arith) ∙ same_length

  pub blocks_loop_ok :
      (n : ℕ) (bytes : List ℕ) (i : ℕ)
      → i + 8 * n ≤ length bytes
      → blocks_loop f n bytes i ≡ ok (blocks f n bytes i)
  unfolding blocks_loop blocks block
  blocks_loop_ok zero bytes i h = refl
  blocks_loop_ok (suc n) bytes i h = ground (
    arith,
    length-block bytes i (omega arith),
    blocks_loop_ok n (block f bytes i) (i + 8) (omega (arith, length-block bytes i (omega arith))),
  )

  pub crypt_ok :
      (bytes : List ℕ) (offset size : ℕ)
      → size % 8 ≡ 0
      → offset + size ≤ length bytes
      → crypt f bytes offset size ≡ ok (blocks f (size / 8) bytes offset)
  unfolding crypt
  crypt_ok bytes offset size a h =
      let e : (size + 7) / 8 ≡ size / 8 = omega arith in
      rw (e, blocks_loop_ok (size / 8) bytes offset (omega arith)) (ground arith)

  -- Slices outside of the range stay.
  pub slice-blocks_before :
      (n : ℕ) (bytes : List ℕ) (i j k : ℕ)
      → j + k ≤ i
      → slice j k (blocks f n bytes i) ≡ slice j k bytes
  unfolding blocks block
  slice-blocks_before zero bytes i j k h = refl
  slice-blocks_before (suc n) bytes i j k h =
      slice-blocks_before n (block f bytes i) (i + 8) j k (omega arith)
      ∙ slice-overwrite_before j k i (f (slice i 8 bytes)) bytes h

-- A block and later blocks do not meet.
module _ (f g : List ℕ → List ℕ) (keep_f : KeepsLength f) (keep_g : KeepsLength g) where
  block_comm :
      (bytes : List ℕ) (i j : ℕ)
      → i + 8 ≤ j
      → j + 8 ≤ length bytes
      → block g (block f bytes j) i ≡ block f (block g bytes i) j
  unfolding block
  block_comm bytes i j h l =
      let lf = length-image f keep_f bytes j l in
      let lg = length-image g keep_g bytes i (omega arith) in
      let new_g = g (slice i 8 bytes) in
      let stays = slice-overwrite_after j 8 i new_g bytes (omega arith) (omega arith) in
      rw (slice-overwrite_before i 8 j (f (slice j 8 bytes)) bytes h, stays)
        (sym (overwrite_comm i j new_g (f (slice j 8 bytes)) bytes (omega arith) (omega arith)))

  block-blocks :
      (n : ℕ) (bytes : List ℕ) (i j : ℕ)
      → i + 8 ≤ j
      → j + 8 * n ≤ length bytes
      → block g (blocks f n bytes j) i ≡ blocks f n (block g bytes i) j
  unfolding blocks
  block-blocks zero bytes i j h l = refl
  block-blocks (suc n) bytes i j h l =
      block-blocks n (block f bytes j) i (j + 8) (omega arith)
        (omega (arith, length-block f keep_f bytes j (omega arith)))
      ∙ ap (λ (b : List ℕ). blocks f n b (j + 8)) (block_comm bytes i j h (omega arith))

module _ (c : Cipher) (law : IsBlockCipher c) where
  open c use {encrypt_block, decrypt_block}

  block_undo :
      (bytes : List ℕ) (i : ℕ)
      → IsBytes bytes
      → i + 8 ≤ length bytes
      → block decrypt_block (block encrypt_block bytes i) i ≡ bytes
  unfolding block
  block_undo bytes i b h =
      let old = slice i 8 bytes in
      let old_length = length-slice i 8 bytes h in
      let image = length-image encrypt_block law.length-encrypt bytes i h in
      let read = slice-overwrite i (encrypt_block old) bytes (omega arith) in
      let back = law.decrypt-encrypt old old_length (slice-IsBytes i 8 bytes b) in
      rw (rw image at read, back)
        (overwrite-overwrite i old (encrypt_block old) bytes (omega arith) (omega arith)
          ∙ overwrite-slice i 8 bytes h)

  pub blocks_undo :
      (n : ℕ) (bytes : List ℕ) (i : ℕ)
      → IsBytes bytes
      → i + 8 * n ≤ length bytes
      → blocks decrypt_block n (blocks encrypt_block n bytes i) i ≡ bytes
  unfolding blocks
  blocks_undo zero bytes i b h = refl
  blocks_undo (suc n) bytes i b h =
      let first = block encrypt_block bytes i in
      let first_length = length-block encrypt_block law.length-encrypt bytes i (omega arith) in
      ap (λ (x : List ℕ). blocks decrypt_block n x (i + 8))
        (block-blocks encrypt_block decrypt_block law.length-encrypt law.length-decrypt n first i
            (i + 8) (omega arith) (omega arith)
          ∙ ap (λ (x : List ℕ). blocks encrypt_block n x (i + 8))
              (block_undo bytes i b (omega arith)))
      ∙ blocks_undo n bytes (i + 8) b (omega arith)

  -- Over whole blocks in range, `Decrypt` restores the buffer that `Encrypt` changed, which keeps
  -- its length and every slice in front of the range.
  pub decrypt-encrypt_range :
      (bytes : List ℕ) (offset size : ℕ)
      → IsBytes bytes
      → size % 8 ≡ 0
      → offset + size ≤ length bytes
      → (sealed : List ℕ) × (encrypt c bytes offset size ≡ ok sealed)
        × (decrypt c sealed offset size ≡ ok bytes)
        × (length sealed ≡ length bytes)
  unfolding encrypt decrypt
  decrypt-encrypt_range bytes offset size b a h =
      let n = size / 8 in
      let sealed = blocks encrypt_block n bytes offset in
      let kept = length-blocks encrypt_block law.length-encrypt n bytes offset (omega arith) in
      (
        sealed,
        crypt_ok encrypt_block law.length-encrypt bytes offset size a h,
        crypt_ok decrypt_block law.length-decrypt sealed offset size a (omega arith)
            ∙ ap ok (blocks_undo n bytes offset b (omega arith)),
        kept,
      )
