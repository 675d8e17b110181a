-- ===== src/Crypto/Checksum/Laws.antt =====
-- A checksum that was appended is accepted, and the payload in front of it stays.
use la2go.Prelude.{
  ℕ, zero, suc, ◌+◌, ◌-◌, ◌*◌, ◌/◌, ◌%◌, ◌^◌, ◌≤◌, ◌<◌, ◌≡◌, refl, ◌∙◌, bit_xor, List, true, arith,
  length, ok,
}
use la2go.Prelude.Bits.{bit_xor-lt, bit_xor_self}
use la2go.Bytes.{IsBytes, slice, word_at, put_word}
use la2go.Bytes.Words.{
  read_u32_ok, write_u32_ok, word_at-lt, word_at-put_self, word_at-put_before, length-put_word,
  put_word-IsBytes, slice-put_before,
}
use la2go.Crypto.Checksum.{rounds, checksum_loop, append_checksum, verify_checksum}

-- The exclusive or of `n` words from `i` on.
unfoldable pub xor_words : ℕ → List ℕ → ℕ → ℕ → ℕ
xor_words zero bytes i acc = acc
xor_words (suc n) bytes i acc = xor_words n bytes (i + 4) (bit_xor acc (word_at bytes i))

pub checksum_loop_ok :
    (n : ℕ) (bytes : List ℕ) (i acc : ℕ)
    → i + 4 * n ≤ length bytes
    → checksum_loop n bytes i acc ≡ ok (xor_words n bytes i acc)
unfolding checksum_loop xor_words
checksum_loop_ok zero bytes i acc h = refl
checksum_loop_ok (suc n) bytes i acc h =
    rw (read_u32_ok bytes i (omega arith))
      (checksum_loop_ok n bytes (i + 4) (bit_xor acc (word_at bytes i)) (omega arith))

xor_words-lt :
    (n : ℕ) (bytes : List ℕ) (i acc : ℕ)
    → IsBytes bytes
    → i + 4 * n ≤ length bytes
    → acc < 2 ^ 32
    → xor_words n bytes i acc < 2 ^ 32
unfolding xor_words
xor_words-lt zero bytes i acc b h a = a
xor_words-lt (suc n) bytes i acc b h a =
    xor_words-lt n bytes (i + 4) _ b (omega arith)
      (bit_xor-lt 32 acc (word_at bytes i) a (word_at-lt bytes i (omega arith) b))

-- The last word may be taken out of the loop.
xor_words_last :
    (n : ℕ) (bytes : List ℕ) (i j acc : ℕ)
    → i + 4 * n ≡ j
    → xor_words (suc n) bytes i acc ≡ bit_xor (xor_words n bytes i acc) (word_at bytes j)
unfolding xor_words
xor_words_last zero bytes i j acc e = let e' : i ≡ j = omega arith in rw e'
xor_words_last (suc n) bytes i j acc e =
    xor_words_last n bytes (i + 4) j (bit_xor acc (word_at bytes i)) (omega arith)

-- Words in front of a write do not feel it.
xor_words-put :
    (n : ℕ) (bytes : List ℕ) (i j w acc : ℕ)
    → i + 4 * n ≤ j
    → xor_words n (put_word bytes j w) i acc ≡ xor_words n bytes i acc
unfolding xor_words
xor_words-put zero bytes i j w acc h = refl
xor_words-put (suc n) bytes i j w acc h =
    rw (word_at-put_before bytes j i w (omega arith))
      (xor_words-put n bytes (i + 4) j w _ (omega arith))

module _ (bytes : List ℕ) (offset size : ℕ) (isb : IsBytes bytes) (aligned : size % 4 ≡ 0)
    (room : 4 < size) (fits : offset + size ≤ length bytes) where
  n : ℕ
  n = size / 4 - 1

  checksum : ℕ
  checksum = xor_words n bytes offset 0

  -- What `AppendChecksum` leaves in the buffer.
  pub summed : List ℕ
  summed = put_word bytes (offset + size - 4) checksum

  pub append_checksum_ok : append_checksum bytes offset size ≡ ok summed
  unfolding append_checksum summed checksum n
  append_checksum_ok =
      let e : rounds offset (offset + size - 4) ≡ size / 4 - 1 = omega arith in
      rw (e, checksum_loop_ok (size / 4 - 1) bytes offset 0 (omega arith))
        (ground (
          arith,
          write_u32_ok bytes (offset + size - 4) (omega arith)
              (xor_words (size / 4 - 1) bytes offset 0),
        ))

  pub length-summed : length summed ≡ length bytes
  unfolding summed
  length-summed = length-put_word bytes (offset + size - 4) (omega arith) checksum

  checksum-lt : checksum < 2 ^ 32
  unfolding checksum n
  checksum-lt = xor_words-lt (size / 4 - 1) bytes offset 0 isb (omega arith) (omega arith)

  last_word : word_at summed (offset + size - 4) ≡ checksum
  unfolding summed
  last_word = word_at-put_self bytes (offset + size - 4) (omega arith) checksum checksum-lt

  earlier_words : xor_words n summed offset 0 ≡ checksum
  unfolding summed checksum n
  earlier_words = xor_words-put (size / 4 - 1) bytes offset (offset + size - 4) _ 0 (omega arith)

  sum_is_zero : xor_words (suc n) summed offset 0 ≡ 0
  sum_is_zero =
      xor_words_last n summed offset (offset + size - 4) 0 (unfold n in omega arith)
      ∙ rw (earlier_words, last_word) (bit_xor_self 32 checksum checksum-lt)

  pub verify_checksum_ok : verify_checksum summed offset size ≡ ok true
  unfolding verify_checksum
  verify_checksum_ok =
      let e : rounds offset (offset + size) ≡ suc n = unfold n in omega arith in
      rw
        (
          e,
          checksum_loop_ok (suc n) summed offset 0 (unfold n in omega (arith, length-summed)),
          sum_is_zero,
        )
        (ground arith)

  pub summed-IsBytes : IsBytes summed
  unfolding summed
  summed-IsBytes = put_word-IsBytes bytes (offset + size - 4) checksum isb

  -- A checksum that was appended to `size` bytes, a multiple of 4 above 4 in range, is accepted by
  -- the verification; the bytes in front of it and the length of the buffer stay.
  verify_checksum-append_checksum :
      (summed : List ℕ) × (append_checksum bytes offset size ≡ ok summed)
      × (verify_checksum summed offset size ≡ ok true)
      × (slice offset (size - 4) summed ≡ slice offset (size - 4) bytes)
      × (length summed ≡ length bytes)
  unfolding summed
  verify_checksum-append_checksum = (
    summed,
    append_checksum_ok,
    verify_checksum_ok,
    slice-put_before offset (size - 4) bytes (offset + size - 4) checksum (omega arith),
    length-summed,
  )

  pub slice-summed : (j k : ℕ) → j + k ≤ offset + size - 4 → slice j k summed ≡ slice j k bytes
  unfolding summed
  slice-summed j k h = slice-put_before j k bytes (offset + size - 4) checksum h
