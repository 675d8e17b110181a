-- ===== src/Crypto/XorPass/Windows.antt =====
-- The backward pass over a range of a buffer, and over the range taken out of it.
use la2go.Prelude.{
  ℕ, zero, suc, ◌+◌, ◌-◌, ◌*◌, ◌/◌, ◌≤◌, ◌≡◌, refl, ap, List, leb, ltb, true, false, bit_xor,
  length, Result, ok, ◌>>=◌, >>=-eq-ok, arith,
}
use la2go.Bytes.{slice, le_bytes, word_at, read_u32, write_u32, put_word}
use la2go.Bytes.Slices.{length-slice, length-overwrite}
use la2go.Bytes.Words.{read_u32_ok, write_u32_ok}
use la2go.Bytes.Windows.{word_at-slice, slice-overwrite_inside}
use la2go.Crypto.XorPass.{dec_loop, dec_xor_pass, sub_u32}

module _ (o k : ℕ) where
  read_u32-slice :
      (bytes : List ℕ) (i : ℕ)
      → i + 4 ≤ k
      → o + k ≤ length bytes
      → read_u32 (slice o k bytes) i ≡ ok (word_at bytes (o + i))
  unfolding read_u32
  read_u32-slice bytes i h g =
      let width = length-slice o k bytes g in
      let room : leb (i + 4) (length (slice o k bytes)) ≡ true = ground arith in
      rw (room, word_at-slice o k i bytes h) refl

  write_u32-slice :
      (bytes : List ℕ) (i w : ℕ)
      → i + 4 ≤ k
      → o + k ≤ length bytes
      → write_u32 (slice o k bytes) i w ≡ ok (slice o k (put_word bytes (o + i) w))
  unfolding write_u32 put_word
  write_u32-slice bytes i w h g =
      let width = length-slice o k bytes g in
      let room : leb (i + 4) (length (slice o k bytes)) ≡ true = ground arith in
      rw (room, slice-overwrite_inside o k i (le_bytes 4 w) bytes h g) refl

  dec_loop-window :
      (left : ℕ) (bytes : List ℕ) (i ecx : ℕ)
      → 4 * left ≤ i + 4
      → i + 4 ≤ k
      → o + k ≤ length bytes
      → dec_loop left (slice o k bytes) i ecx
        ≡ (dec_loop left bytes (o + i) ecx >>= λ (b, last). ok (slice o k b, last))
  unfolding dec_loop
  dec_loop-window zero bytes i ecx below h g = refl
  dec_loop-window (suc zero) bytes i ecx below h g =
      rw
        (
          read_u32-slice bytes i h g,
          read_u32_ok bytes (o + i) (omega arith),
          write_u32-slice bytes i _ h g,
          write_u32_ok bytes (o + i) (omega arith) _,
        )
        refl
  dec_loop-window (suc (suc left)) bytes i ecx below h g =
      let next : o + i - 4 ≡ o + (i - 4) = omega arith in
      let word = word_at bytes (o + i) in
      let changed = put_word bytes (o + i) (bit_xor word ecx) in
      let same_length : length changed ≡ length bytes =
        unfold put_word in
        length-overwrite (o + i) (le_bytes 4 (bit_xor word ecx)) bytes (omega arith) in
      rw
        (
          read_u32-slice bytes i h g,
          read_u32_ok bytes (o + i) (omega arith),
          write_u32-slice bytes i (bit_xor word ecx) h g,
          write_u32_ok bytes (o + i) (omega arith) (bit_xor word ecx),
          next,
        )
        (dec_loop-window (suc left) changed (i - 4) (sub_u32 ecx (bit_xor word ecx)) (omega arith)
          (omega arith) (omega arith))

  -- The pass over a range of 12 bytes or more does the same to the range taken out of the buffer.
  pub dec_xor_pass-window :
      (bytes plain : List ℕ)
      → 12 ≤ k
      → o + k ≤ length bytes
      → dec_xor_pass bytes o k ≡ ok plain
      → dec_xor_pass (slice o k bytes) 0 k ≡ ok (slice o k plain)
  unfolding dec_xor_pass
  dec_xor_pass-window bytes plain h g done =
      let n = (k - 12) / 4 in
      let ecx = word_at bytes (o + (k - 8)) in
      let enough : ltb (o + k) 8 ≡ false = ground arith in
      let alone : ltb (0 + k) 8 ≡ false = ground arith in
      let stop : o + k - 8 ≡ o + (k - 8) = omega arith in
      let stop' : 0 + k - 8 ≡ k - 8 = omega arith in
      let count : (o + (k - 8) - (o + 4)) / 4 ≡ n = omega arith in
      let count' : (k - 8 - (0 + 4)) / 4 ≡ n = omega arith in
      let first : o + (k - 8) - 4 ≡ o + (k - 12) = omega arith in
      let first' : k - 8 - 4 ≡ k - 12 = omega arith in
      let read = read_u32_ok bytes (o + (k - 8)) (omega arith) in
      let looped = rw (enough, stop, read, count, first) at done in
      let ((b, last), e, same) = >>=-eq-ok (dec_loop n bytes (o + (k - 12)) ecx) _ looped in
      rw
        (
          alone,
          stop',
          read_u32-slice bytes (k - 8) (omega arith) g,
          count',
          first',
          dec_loop-window n bytes (k - 12) ecx (omega arith) (omega arith) g,
          e,
        )
        (ap (λ (r : Result (List ℕ)). r >>= λ x. ok (slice o k x)) same)
