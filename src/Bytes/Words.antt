-- ===== src/Bytes/Words.antt =====
-- Little-endian words in a buffer: what is written is read back, and nothing else changes.
use native.Mathlib.Nat.{pow-suc}
use la2go.Prelude.{
  ℕ, zero, suc, ◌+◌, ◌*◌, ◌/◌, ◌%◌, ◌^◌, ◌≤◌, ◌<◌, ◌≡◌, refl, ap, ◌∙◌, List, [], ◌∷◌, arith, length,
  ok, panic,
}
use la2go.Bytes.{IsBytes, le_bytes, of_le, slice, word_at, put_word, read_u32, write_u32}
use la2go.Bytes.Slices.{
  length-slice, length-overwrite, slice-overwrite, slice-overwrite_after, slice-overwrite_before,
  overwrite-slice, overwrite-overwrite, overwrite_comm, overwrite-IsBytes, slice-IsBytes,
}

pub length-le_bytes : (k w : ℕ) → length (le_bytes k w) ≡ k
length-le_bytes zero w = refl
length-le_bytes (suc k) w = ap suc (length-le_bytes k (w / 256))

pub le_bytes-IsBytes : (k w : ℕ) → IsBytes (le_bytes k w)
le_bytes-IsBytes zero w = tt
le_bytes-IsBytes (suc k) w = (omega arith, le_bytes-IsBytes k (w / 256))

pub of_le-le_bytes : (k w : ℕ) → w < 256 ^ k → of_le (le_bytes k w) ≡ w
of_le-le_bytes zero w h = omega arith
of_le-le_bytes (suc k) w h =
    omega (arith, pow-suc 256 k, of_le-le_bytes k (w / 256) (omega (arith, pow-suc 256 k)))

pub le_bytes-of_le : (bs : List ℕ) → IsBytes bs → le_bytes (length bs) (of_le bs) ≡ bs
le_bytes-of_le [] h = refl
le_bytes-of_le (b ∷ bs) (hb, h) =
    let low : (b + 256 * of_le bs) % 256 ≡ b = omega arith in
    let high : (b + 256 * of_le bs) / 256 ≡ of_le bs = omega arith in
    rw (low, high, le_bytes-of_le bs h)

pub of_le-lt : (bs : List ℕ) → IsBytes bs → of_le bs < 256 ^ length bs
of_le-lt [] h = omega arith
of_le-lt (b ∷ bs) (hb, h) = omega (arith, of_le-lt bs h, pow-suc 256 (length bs))

module _ (bytes : List ℕ) (i : ℕ) (fits : i + 4 ≤ length bytes) where
  pub read_u32_ok : read_u32 bytes i ≡ ok (word_at bytes i)
  unfolding read_u32
  read_u32_ok = ground arith

  pub write_u32_ok : (w : ℕ) → write_u32 bytes i w ≡ ok (put_word bytes i w)
  unfolding write_u32
  write_u32_ok w = ground arith

  pub length-put_word : (w : ℕ) → length (put_word bytes i w) ≡ length bytes
  unfolding put_word
  length-put_word w = length-overwrite i (le_bytes 4 w) bytes fits

  pub word_at-put_self : (w : ℕ) → w < 2 ^ 32 → word_at (put_word bytes i w) i ≡ w
  unfolding word_at put_word
  word_at-put_self w h =
      ap of_le (slice-overwrite i (le_bytes 4 w) bytes fits) ∙ of_le-le_bytes 4 w h

  pub word_at-put_after : (j w : ℕ) → i + 4 ≤ j → word_at (put_word bytes i w) j ≡ word_at bytes j
  unfolding word_at put_word
  word_at-put_after j w h = ap of_le (slice-overwrite_after j 4 i (le_bytes 4 w) bytes fits h)

  pub word_at-lt : IsBytes bytes → word_at bytes i < 2 ^ 32
  unfolding word_at
  word_at-lt h =
      let bound = of_le-lt (slice i 4 bytes) (slice-IsBytes i 4 bytes h) in
      rw (length-slice i 4 bytes fits) at bound

  pub put_word-word_at : IsBytes bytes → put_word bytes i (word_at bytes i) ≡ bytes
  unfolding word_at put_word
  put_word-word_at h =
      let back = le_bytes-of_le (slice i 4 bytes) (slice-IsBytes i 4 bytes h) in
      rw (rw (length-slice i 4 bytes fits) at back) (overwrite-slice i 4 bytes fits)

  pub put_word-put_word : (v w : ℕ) → put_word (put_word bytes i v) i w ≡ put_word bytes i w
  unfolding put_word
  put_word-put_word v w = overwrite-overwrite i (le_bytes 4 w) (le_bytes 4 v) bytes refl fits

pub word_at-put_before :
    (bytes : List ℕ) (i j w : ℕ) → j + 4 ≤ i → word_at (put_word bytes i w) j ≡ word_at bytes j
unfolding word_at put_word
word_at-put_before bytes i j w h = ap of_le (slice-overwrite_before j 4 i (le_bytes 4 w) bytes h)

pub put_word-IsBytes : (bytes : List ℕ) (i w : ℕ) → IsBytes bytes → IsBytes (put_word bytes i w)
unfolding put_word
put_word-IsBytes bytes i w h = overwrite-IsBytes i (le_bytes 4 w) bytes (le_bytes-IsBytes 4 w) h

pub put_word_comm :
    (bytes : List ℕ) (i j v w : ℕ)
    → i + 4 ≤ j
    → j + 4 ≤ length bytes
    → put_word (put_word bytes i v) j w ≡ put_word (put_word bytes j w) i v
unfolding put_word
put_word_comm bytes i j v w h g = overwrite_comm i j (le_bytes 4 v) (le_bytes 4 w) bytes h g

pub slice-put_before :
    (j k : ℕ) (bytes : List ℕ) (i w : ℕ)
    → j + k ≤ i
    → slice j k (put_word bytes i w) ≡ slice j k bytes
unfolding put_word
slice-put_before j k bytes i w h = slice-overwrite_before j k i (le_bytes 4 w) bytes h

pub slice-put_after :
    (j k : ℕ) (bytes : List ℕ) (i w : ℕ)
    → i + 4 ≤ length bytes
    → i + 4 ≤ j
    → slice j k (put_word bytes i w) ≡ slice j k bytes
unfolding put_word
slice-put_after j k bytes i w h l = slice-overwrite_after j k i (le_bytes 4 w) bytes h l

pub write_u32_panic :
    (bytes : List ℕ) (i w : ℕ) → length bytes < i + 4 → write_u32 bytes i w ≡ panic
unfolding write_u32
write_u32_panic bytes i w h = ground arith
