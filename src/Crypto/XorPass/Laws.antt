-- ===== src/Crypto/XorPass/Laws.antt =====
-- The backward pass undoes the forward one.
use la2go.Prelude.{
  ℕ, zero, suc, ◌+◌, ◌-◌, ◌*◌, ◌^◌, ◌≤◌, ◌<◌, ◌≡◌, refl, sym, ap, ◌∙◌, bit_xor, List, arith, length,
  ◌⊎◌, inl, inr, ok, ◌>>=◌, bind_step,
}
use la2go.Prelude.Bits.{bit_xor-lt, bit_xor_cancel}
use la2go.Bytes.{IsBytes, slice, word_at, put_word, read_u32, write_u32}
use la2go.Bytes.Words.{
  read_u32_ok, write_u32_ok, word_at-lt, word_at-put_self, word_at-put_before, length-put_word,
  put_word-IsBytes, put_word-word_at, put_word-put_word, put_word_comm, slice-put_before,
  slice-put_after,
}
use la2go.Crypto.XorPass.{add_u32, sub_u32, enc_loop, dec_loop}

-- One round of the forward pass, and one of the backward pass.
enc_word : List ℕ → ℕ → ℕ → List ℕ
enc_word bytes pos ecx =
    put_word bytes pos (bit_xor (word_at bytes pos) (add_u32 ecx (word_at bytes pos)))

pub enc_words : ℕ → List ℕ → ℕ → ℕ → List ℕ
enc_words zero bytes pos ecx = bytes
enc_words (suc n) bytes pos ecx =
    enc_words n (enc_word bytes pos ecx) (pos + 4) (add_u32 ecx (word_at bytes pos))

pub enc_key : ℕ → List ℕ → ℕ → ℕ → ℕ
enc_key zero bytes pos ecx = ecx
enc_key (suc n) bytes pos ecx =
    enc_key n (enc_word bytes pos ecx) (pos + 4) (add_u32 ecx (word_at bytes pos))

enc_word-IsBytes : (bytes : List ℕ) (pos ecx : ℕ) → IsBytes bytes → IsBytes (enc_word bytes pos ecx)
unfolding enc_word
enc_word-IsBytes bytes pos ecx b = put_word-IsBytes bytes pos _ b

length-enc_word :
    (bytes : List ℕ) (pos ecx : ℕ)
    → pos + 4 ≤ length bytes
    → length (enc_word bytes pos ecx) ≡ length bytes
unfolding enc_word
length-enc_word bytes pos ecx h = length-put_word bytes pos h _

pub length-enc_words :
    (n : ℕ) (bytes : List ℕ) (pos ecx : ℕ)
    → pos + 4 * n ≤ length bytes
    → length (enc_words n bytes pos ecx) ≡ length bytes
unfolding enc_words
length-enc_words zero bytes pos ecx h = refl
length-enc_words (suc n) bytes pos ecx h =
    let same_length = length-enc_word bytes pos ecx (omega arith) in
    length-enc_words n _ (pos + 4) _ (omega arith) ∙ same_length

pub enc_words-IsBytes :
    (n : ℕ) (bytes : List ℕ) (pos ecx : ℕ) → IsBytes bytes → IsBytes (enc_words n bytes pos ecx)
unfolding enc_words
enc_words-IsBytes zero bytes pos ecx b = b
enc_words-IsBytes (suc n) bytes pos ecx b =
    enc_words-IsBytes n _ (pos + 4) _ (enc_word-IsBytes bytes pos ecx b)

pub enc_key-lt :
    (n : ℕ) (bytes : List ℕ) (pos ecx : ℕ) → ecx < 2 ^ 32 → enc_key n bytes pos ecx < 2 ^ 32
unfolding enc_key
enc_key-lt zero bytes pos ecx h = h
enc_key-lt (suc n) bytes pos ecx h = enc_key-lt n _ (pos + 4) _ (omega arith)

-- In range the loop returns what the two functions say.
pub enc_loop_ok :
    (n : ℕ) (bytes : List ℕ) (pos ecx : ℕ)
    → pos + 4 * n ≤ length bytes
    → enc_loop n bytes pos ecx ≡ ok (enc_words n bytes pos ecx, enc_key n bytes pos ecx)
unfolding enc_loop enc_words enc_key enc_word
enc_loop_ok zero bytes pos ecx h = refl
enc_loop_ok (suc n) bytes pos ecx h =
    let edx = word_at bytes pos in
    rw
      (
        read_u32_ok bytes pos (omega arith),
        write_u32_ok bytes pos (omega arith) (bit_xor edx (add_u32 ecx edx)),
      )
      (enc_loop_ok n _ (pos + 4) (add_u32 ecx edx)
        (omega (arith, length-put_word bytes pos (omega arith) (bit_xor edx (add_u32 ecx edx)))))

-- A round of the backward pass at the place where a forward round was.
dec_round :
    (bytes : List ℕ) (pos ecx : ℕ)
    → IsBytes bytes
    → pos + 4 ≤ length bytes
    → ecx < 2 ^ 32
    → dec_loop 1 (enc_word bytes pos ecx) pos (add_u32 ecx (word_at bytes pos)) ≡ ok (bytes, ecx)
unfolding dec_loop enc_word
dec_round bytes pos ecx b h k =
    let edx = word_at bytes pos in
    let edx-lt = word_at-lt bytes pos h b in
    let ecx' = add_u32 ecx edx in
    let mixed = bit_xor edx ecx' in
    let mixed-lt : mixed < 2 ^ 32 = bit_xor-lt 32 edx ecx' edx-lt (omega arith) in
    let kept = length-put_word bytes pos h mixed in
    rw
      (
        read_u32_ok (put_word bytes pos mixed) pos (omega arith),
        word_at-put_self bytes pos h mixed mixed-lt,
        bit_xor_cancel 32 edx ecx' edx-lt (omega arith),
        write_u32_ok (put_word bytes pos mixed) pos (omega arith) edx,
        put_word-put_word bytes pos h mixed edx,
        put_word-word_at bytes pos h b,
      )
      (ap (λ (key : ℕ). ok (bytes, key)) (omega arith))

-- The last round of the backward loop may be taken out.
dec_loop_last :
    (n : ℕ) (bytes : List ℕ) (i j ecx : ℕ)
    → i ≡ j + 4 * n
    → dec_loop (suc n) bytes i ecx ≡ (dec_loop n bytes i ecx >>= λ r. dec_loop 1 r.0 j r.1)
unfolding dec_loop
dec_loop_last zero bytes i j ecx e = let e' : i ≡ j = omega arith in rw e'
dec_loop_last (suc n) bytes i j ecx e =
    let rest = λ (r : List ℕ × ℕ). dec_loop 1 r.0 j r.1 in
    bind_step (read_u32 bytes i) _ _ rest λ edx.
      bind_step (write_u32 bytes i (bit_xor edx ecx)) _ _ rest
        λ bytes'. dec_loop_last n bytes' (i - 4) j (sub_u32 ecx (bit_xor edx ecx)) (omega arith)

-- The backward loop over the words of the forward loop, the last of them first.
pub dec_loop-enc_words :
    (n : ℕ) (bytes : List ℕ) (pos ecx : ℕ)
    → IsBytes bytes
    → pos + 4 * n ≤ length bytes
    → ecx < 2 ^ 32
    → dec_loop n (enc_words n bytes pos ecx) (pos + 4 * n - 4) (enc_key n bytes pos ecx)
      ≡ ok (bytes, ecx)
unfolding enc_words enc_key
dec_loop-enc_words zero bytes pos ecx b h k = unfold dec_loop in refl
dec_loop-enc_words (suc n) bytes pos ecx b h k =
    let first = enc_word bytes pos ecx in
    let ecx' = add_u32 ecx (word_at bytes pos) in
    let first_length = length-enc_word bytes pos ecx (omega arith) in
    let i : pos + 4 * suc n - 4 ≡ pos + 4 + 4 * n - 4 = omega arith in
    let later =
      dec_loop-enc_words n first (pos + 4) ecx' (enc_word-IsBytes bytes pos ecx b) (omega arith)
        (omega arith) in
    dec_loop_last n _ (pos + 4 * suc n - 4) pos _ (omega arith)
    ∙ rw (i, later) (dec_round bytes pos ecx b (omega arith) k)

-- A write behind the words of the forward loop does not matter to it.
pub enc_words-put :
    (n : ℕ) (bytes : List ℕ) (pos ecx j w : ℕ)
    → pos + 4 * n ≤ j
    → j + 4 ≤ length bytes
    → (enc_words n (put_word bytes j w) pos ecx ≡ put_word (enc_words n bytes pos ecx) j w)
      × (enc_key n (put_word bytes j w) pos ecx ≡ enc_key n bytes pos ecx)
unfolding enc_words enc_key
enc_words-put zero bytes pos ecx j w h l = (refl, refl)
enc_words-put (suc n) bytes pos ecx j w h l =
    let edx = word_at bytes pos in
    let mixed = bit_xor edx (add_u32 ecx edx) in
    let first_length = length-enc_word bytes pos ecx (omega arith) in
    let commute : enc_word (put_word bytes j w) pos ecx ≡ put_word (enc_word bytes pos ecx) j w =
      unfold enc_word in
      rw (word_at-put_before bytes j pos w (omega arith))
        (sym (put_word_comm bytes pos j mixed w (omega arith) l)) in
    let (words, key) =
      enc_words-put n (enc_word bytes pos ecx) (pos + 4) (add_u32 ecx edx) j w (omega arith)
        (omega arith) in
    rw (commute, word_at-put_before bytes j pos w (omega arith)) (words, key)

-- Slices in front of the words, and behind them, stay.
pub slice-enc_words :
    (n : ℕ) (bytes : List ℕ) (pos ecx j k : ℕ)
    → pos + 4 * n ≤ length bytes
    → (j + k ≤ pos) ⊎ (pos + 4 * n ≤ j)
    → slice j k (enc_words n bytes pos ecx) ≡ slice j k bytes
unfolding enc_words enc_word
slice-enc_words zero bytes pos ecx j k h out = refl
slice-enc_words (suc n) bytes pos ecx j k h (inl before) =
    let first_length = length-enc_word bytes pos ecx (omega arith) in
    slice-enc_words n _ (pos + 4) _ j k (omega arith) (inl (omega arith))
    ∙ slice-put_before j k bytes pos _ before
slice-enc_words (suc n) bytes pos ecx j k h (inr after) =
    let first_length = length-enc_word bytes pos ecx (omega arith) in
    slice-enc_words n _ (pos + 4) _ j k (omega arith) (inr (omega arith))
    ∙ slice-put_after j k bytes pos _ (omega arith) (omega arith)
