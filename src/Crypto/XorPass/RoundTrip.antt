-- ===== src/Crypto/XorPass/RoundTrip.antt =====
-- `DecXORPass` after `EncXORPass`.
use la2go.Prelude.{
  ℕ, ◌+◌, ◌-◌, ◌*◌, ◌/◌, ◌%◌, ◌^◌, ◌≤◌, ◌<◌, ◌≡◌, ◌∙◌, inl, inr, List, arith, length, ok, panic,
}
use la2go.Bytes.{IsBytes, slice, word_at, put_word}
use la2go.Bytes.Words.{
  read_u32_ok, write_u32_ok, word_at-put_self, length-put_word, put_word-IsBytes, slice-put_before,
  slice-put_after, write_u32_panic,
}
use la2go.Crypto.Checksum.{rounds}
use la2go.Crypto.XorPass.{enc_xor_pass, dec_xor_pass, dec_loop}
use la2go.Crypto.XorPass.Laws.{
  enc_words, enc_key, enc_loop_ok, length-enc_words, enc_words-IsBytes, enc_key-lt,
  dec_loop-enc_words, enc_words-put, slice-enc_words,
}

module _ (bytes : List ℕ) (offset size key : ℕ) (isb : IsBytes bytes) (aligned : size % 4 ≡ 0)
    (room : 12 ≤ size) (fits : offset + size ≤ length bytes) (word : key < 2 ^ 32) where
  n : ℕ
  n = (size - 12) / 4

  abbrev pub stop : ℕ
  stop = offset + size - 8

  pub last_key : ℕ
  last_key = enc_key n bytes (offset + 4) key

  mixed : List ℕ
  mixed = enc_words n bytes (offset + 4) key

  pub passed : List ℕ
  passed = put_word mixed stop last_key

  length-mixed : length mixed ≡ length bytes
  unfolding mixed n
  length-mixed = length-enc_words ((size - 12) / 4) bytes (offset + 4) key (omega arith)

  pub length-passed : length passed ≡ length bytes
  unfolding passed
  length-passed =
      length-put_word mixed (offset + size - 8) (omega (arith, length-mixed)) last_key
      ∙ length-mixed

  pub passed-IsBytes : IsBytes passed
  unfolding passed mixed
  passed-IsBytes =
      put_word-IsBytes mixed stop last_key (enc_words-IsBytes n bytes (offset + 4) key isb)

  pub enc_xor_pass_ok : enc_xor_pass bytes offset size key ≡ ok passed
  unfolding enc_xor_pass passed mixed last_key n
  enc_xor_pass_ok =
      let e : rounds (offset + 4) (offset + size - 8) ≡ (size - 12) / 4 = omega arith in
      rw (e, enc_loop_ok ((size - 12) / 4) bytes (offset + 4) key (omega arith))
        (ground
          (arith, write_u32_ok mixed (offset + size - 8) (omega (arith, length-mixed)) last_key))

  restored : dec_loop n passed (stop - 4) last_key ≡ ok (put_word bytes stop last_key, key)
  unfolding passed mixed last_key n
  restored =
      let m = (size - 12) / 4 in
      let at = offset + size - 8 in
      let keyed = put_word bytes at last_key in
      let keyed_length = length-put_word bytes at (omega arith) last_key in
      let (words, keys) =
        enc_words-put m bytes (offset + 4) key at last_key (omega arith) (omega arith) in
      let i : offset + size - 8 - 4 ≡ offset + 4 + 4 * m - 4 = omega arith in
      let back =
        dec_loop-enc_words m keyed (offset + 4) key (put_word-IsBytes bytes at last_key isb)
          (omega arith) word in
      rw i (rw (words, keys) at back)

  read_key : word_at passed stop ≡ last_key
  unfolding passed last_key
  read_key =
      word_at-put_self mixed (offset + size - 8) (omega (arith, length-mixed)) _
        (enc_key-lt n bytes (offset + 4) key word)

  pub dec_xor_pass_ok : dec_xor_pass passed offset size ≡ ok (put_word bytes stop last_key)
  unfolding dec_xor_pass n
  dec_xor_pass_ok =
      let count : (offset + size - 8 - (offset + 4)) / 4 ≡ (size - 12) / 4 = omega arith in
      let in_range = read_u32_ok passed (offset + size - 8) (omega (arith, length-passed)) in
      rw (count, in_range, read_key, restored) (ground arith)

  -- On an aligned range of 12 bytes or more, `DecXORPass` after `EncXORPass` restores every byte but
  -- the four that begin 8 bytes before the end, where the final key stands; `EncXORPass` itself
  -- leaves the first four bytes, the last four and the length of the buffer as they were.
  dec_xor_pass-enc_xor_pass :
      (passed : List ℕ) × (enc_xor_pass bytes offset size key ≡ ok passed)
      × (dec_xor_pass passed offset size
          ≡ ok (put_word bytes (offset + size - 8) (word_at passed (offset + size - 8))))
      × (slice offset 4 passed ≡ slice offset 4 bytes)
      × (slice (offset + size - 4) 4 passed ≡ slice (offset + size - 4) 4 bytes)
      × (length passed ≡ length bytes)
  unfolding passed mixed n
  dec_xor_pass-enc_xor_pass =
      let at = offset + size - 8 in
      let outside = slice-enc_words ((size - 12) / 4) bytes (offset + 4) key in
      (
        passed,
        enc_xor_pass_ok,
        rw read_key dec_xor_pass_ok,
        slice-put_before offset 4 mixed at last_key (omega arith)
            ∙ outside offset 4 (omega arith) (inl (omega arith)),
        slice-put_after (offset + size - 4) 4 mixed at last_key (omega (arith, length-mixed))
              (omega arith)
            ∙ outside (offset + size - 4) 4 (omega arith) (inr (omega arith)),
        length-passed,
      )

-- In a buffer that ends in the four bytes where the key goes, `EncXORPass` panics.
pub enc_xor_pass_panic :
    (bytes : List ℕ) (offset size key : ℕ)
    → size % 4 ≡ 0
    → 12 ≤ size
    → offset + size ≤ length bytes + 8
    → length bytes + 4 < offset + size
    → enc_xor_pass bytes offset size key ≡ panic
unfolding enc_xor_pass
enc_xor_pass_panic bytes offset size key aligned room reach short =
    let n = (size - 12) / 4 in
    let e : rounds (offset + 4) (offset + size - 8) ≡ n = omega arith in
    let kept = length-enc_words n bytes (offset + 4) key (omega arith) in
    rw
      (
        e,
        enc_loop_ok n bytes (offset + 4) key (omega arith),
        write_u32_panic (enc_words n bytes (offset + 4) key) (offset + size - 8) _ (omega arith),
      )
      (ground arith)
