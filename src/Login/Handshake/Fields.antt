-- ===== src/Login/Handshake/Fields.antt =====
-- The fields of the Init packet, read from where the server writes them.
use la2go.Prelude.{ℕ, ◌+◌, ◌^◌, ◌≤◌, ◌≡◌, refl, sym, ap, ◌∙◌, List, [], ◌∷◌, length, arith}
use la2go.Prelude.Int.{ℤ, word}
use la2go.Bytes.{le_bytes, slice, overwrite, put_word, IsBytes}
use la2go.Bytes.Slices.{
  length-overwrite, slice-overwrite, slice-overwrite_before, overwrite-IsBytes,
}
use la2go.Bytes.Words.{le_bytes-IsBytes}
use la2go.Login.ServerPackets.{init}

-- A write that fits behind writes that keep the length.
grown :
    {n : ℕ} (i : ℕ) (bs bytes : List ℕ)
    → length bytes ≡ n
    → i + length bs ≤ n
    → length (overwrite i bs bytes) ≡ n
grown i bs bytes e h = length-overwrite i bs bytes (omega arith) ∙ e

module _ (buf : List ℕ) (session_id : ℤ) (scrambled key : List ℕ) (room : 170 ≤ length buf)
    (modulus_size : length scrambled ≡ 128) (key_size : length key ≡ 16) where
  abbrev after1 : List ℕ
  after1 = overwrite 0 (0x00 ∷ []) buf

  abbrev after2 : List ℕ
  after2 = put_word after1 1 (word (2 ^ 32) session_id)

  abbrev after3 : List ℕ
  after3 = put_word after2 5 0x0000c621

  abbrev after4 : List ℕ
  after4 = overwrite 9 scrambled after3

  abbrev after8 : List ℕ
  after8 =
      put_word (put_word (put_word (put_word after4 137 0x29dd954e) 141 0x77c39cfc) 145 0x97adb620)
        149 0x07bde0f7

  abbrev whole : List ℕ
  whole = init buf session_id scrambled key

  length-after1 : length after1 ≡ length buf
  length-after1 = grown 0 (0x00 ∷ []) buf refl (omega arith)

  length-after3 : length after3 ≡ length buf
  unfolding put_word
  length-after3 =
      grown 5 (le_bytes 4 0x0000c621) _ (grown 1 _ _ length-after1 (omega arith)) (omega arith)

  length-after4 : length after4 ≡ length buf
  length-after4 = grown 9 scrambled after3 length-after3 (omega arith)

  length-after8 : length after8 ≡ length buf
  unfolding put_word
  length-after8 =
      grown 149 _ _
        (grown 145 _ _ (grown 141 _ _ (grown 137 _ _ length-after4 (omega arith)) (omega arith))
          (omega arith))
        (omega arith)

  pub length-init : length whole ≡ length buf
  unfolding init
  length-init =
      grown 169 (0x00 ∷ []) _ (grown 153 key after8 length-after8 (omega arith)) (omega arith)

  -- What is read before the key is what was there before the key was written.
  before_key : (j k : ℕ) → j + k ≤ 153 → slice j k whole ≡ slice j k after8
  unfolding init
  before_key j k h =
      slice-overwrite_before j k 169 (0x00 ∷ []) _ (omega arith)
      ∙ slice-overwrite_before j k 153 key after8 h

  before_data : (j k : ℕ) → j + k ≤ 137 → slice j k whole ≡ slice j k after4
  unfolding put_word
  before_data j k h =
      before_key j k (omega arith)
      ∙ slice-overwrite_before j k 149 _ _ (omega arith)
      ∙ slice-overwrite_before j k 145 _ _ (omega arith)
      ∙ slice-overwrite_before j k 141 _ _ (omega arith)
      ∙ slice-overwrite_before j k 137 _ after4 h

  before_modulus : (j k : ℕ) → j + k ≤ 9 → slice j k whole ≡ slice j k after3
  before_modulus j k h =
      before_data j k (omega arith) ∙ slice-overwrite_before j k 9 scrambled after3 h

  pub slice-init-opcode : slice 0 1 whole ≡ (0x00 ∷ [])
  unfolding put_word
  slice-init-opcode =
      before_modulus 0 1 (omega arith)
      ∙ slice-overwrite_before 0 1 5 _ _ (omega arith)
      ∙ slice-overwrite_before 0 1 1 _ after1 (omega arith)
      ∙ slice-overwrite 0 (0x00 ∷ []) buf (omega arith)

  pub slice-init-session_id : slice 1 4 whole ≡ le_bytes 4 (word (2 ^ 32) session_id)
  unfolding put_word
  slice-init-session_id =
      before_modulus 1 4 (omega arith)
      ∙ slice-overwrite_before 1 4 5 _ after2 (omega arith)
      ∙ slice-overwrite 1 (le_bytes 4 (word (2 ^ 32) session_id)) after1
          (let e = length-after1 in omega arith)

  pub slice-init-revision : slice 5 4 whole ≡ le_bytes 4 0x0000c621
  unfolding put_word
  slice-init-revision =
      before_modulus 5 4 (omega arith)
      ∙ slice-overwrite 5 (le_bytes 4 0x0000c621) after2 (
          let e =
            grown 1 (le_bytes 4 (word (2 ^ 32) session_id)) after1 length-after1 (omega arith) in
          omega arith)

  pub slice-init-modulus : slice 9 128 whole ≡ scrambled
  slice-init-modulus =
      before_data 9 128 (omega arith)
      ∙ ap (λ (k : ℕ). slice 9 k after4) (sym modulus_size)
      ∙ slice-overwrite 9 scrambled after3 (let e = length-after3 in omega arith)

  pub slice-init-key : slice 153 16 whole ≡ key
  unfolding init
  slice-init-key =
      slice-overwrite_before 153 16 169 (0x00 ∷ []) _ (omega arith)
      ∙ ap (λ (k : ℕ). slice 153 k (overwrite 153 key after8)) (sym key_size)
      ∙ slice-overwrite 153 key after8 (let e = length-after8 in omega arith)

  pub init-IsBytes : IsBytes buf → IsBytes scrambled → IsBytes key → IsBytes whole
  unfolding init put_word
  init-IsBytes h g f =
      overwrite-IsBytes 169 _ _ (omega arith, tt)
        (overwrite-IsBytes 153 key _ f (
          overwrite-IsBytes 149 _ _ (le_bytes-IsBytes 4 0x07bde0f7) (
            overwrite-IsBytes 145 _ _ (le_bytes-IsBytes 4 0x97adb620) (
              overwrite-IsBytes 141 _ _ (le_bytes-IsBytes 4 0x77c39cfc) (
                overwrite-IsBytes 137 _ _ (le_bytes-IsBytes 4 0x29dd954e) (
                  overwrite-IsBytes 9 scrambled _ g (
                    overwrite-IsBytes 5 _ _ (le_bytes-IsBytes 4 0x0000c621) (
                      overwrite-IsBytes 1 _ _ (le_bytes-IsBytes 4 (word (2 ^ 32) session_id))
                        (overwrite-IsBytes 0 _ buf (omega arith, tt) h)))))))))
