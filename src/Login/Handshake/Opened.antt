-- ===== src/Login/Handshake/Opened.antt =====
-- The client has what the server has sent.
use mathlib.Core.List.{append_assoc}
use la2go.Prelude.{
  ℕ, suc, ◌+◌, ◌-◌, ◌^◌, ◌≤◌, ◌<◌, ◌≡◌, refl, sym, ap, ◌∙◌, List, [], ◌∷◌, ◌++◌, false, ltb, length,
  length-take, length-drop, drop, replicate, ok, arith,
}
use la2go.Prelude.Int.{ℤ, word, IsInt, int32-word}
use la2go.Bytes.{IsBytes, slice, overwrite, of_le, le_bytes, word_at}
use la2go.Bytes.Slices.{length-slice, length-overwrite, overwrite-IsBytes, slice-overwrite_before}
use la2go.Bytes.Windows.{slice-slice}
use la2go.Bytes.Words.{of_le-le_bytes}
use la2go.Crypto.Blowfish.{IsBlockCipher, CipherFactory}
use la2go.Crypto.Encryption.{LoginEncryption, new_login_encryption}
use la2go.Crypto.Encryption.Init.{open_init, open_init-encrypt_packet}
use la2go.Crypto.Encryption.Opening.{open_init-window, new_login_encryption_lem}
use la2go.Crypto.Encryption.Sealing.{replicate-IsBytes}
use la2go.Crypto.Rsa.{byte_of, scramble_modulus, unscramble_modulus}
use la2go.Crypto.Rsa.Scrambling.{unscramble-scramble_modulus}
use la2go.Login.ServerPackets.{init}
use la2go.Login.Handshake.{send_init, LoginClient, open_init_payload, parse_init, read_init_packet}
use la2go.Login.Handshake.Fields.{
  length-init, init-IsBytes, slice-init-opcode, slice-init-session_id, slice-init-revision,
  slice-init-modulus, slice-init-key,
}
use la2go.Wire.Protocol.{write_packet}
use la2go.Wire.Frame.{framed_ok, frame_header, of_le-frame_header}
use la2go.Wire.Stream.{read_full-append}

byte_of-slice : (p : List ℕ) (b : ℕ) → slice 0 1 p ≡ (b ∷ []) → byte_of 0 p ≡ b
unfolding slice byte_of
byte_of-slice [] b h = cc
byte_of-slice (a ∷ p) b h = cc

-- A frame that the client's buffer holds is opened and parsed.
read_init_packet-frame :
    (new_cipher : CipherFactory) (buf_len size : ℕ) (payload rest plain : List ℕ)
    (client : LoginClient)
    → length payload ≡ size
    → size ≤ buf_len
    → 2 + size < 2 ^ 16
    → open_init_payload new_cipher payload ≡ ok plain
    → parse_init new_cipher plain ≡ ok client
    → read_init_packet new_cipher buf_len ((frame_header size ++ payload) ++ rest)
      ≡ ok (client, rest)
unfolding read_init_packet
read_init_packet-frame new_cipher buf_len size payload rest plain client width fits small opened
      parsed =
    let total = of_le-frame_header size small in
    let left : 2 + size - 2 ≡ size = omega arith in
    let t1 : ltb (2 + size) 2 ≡ false = ground arith in
    let t3 : ltb buf_len size ≡ false = ground arith in
    rw
      (
        read_init_packet,
        append_assoc (frame_header size) payload rest,
        read_full-append 2 (frame_header size) (payload ++ rest) refl,
        total,
        left,
        t1,
        t3,
        read_full-append size payload rest width,
        opened,
        parsed,
      )
      refl

-- The parts of a payload that stand in the Init packet make the client.
parse_init-fields :
    (new_cipher : CipherFactory) (p : List ℕ) (session_id : ℤ) (modulus scrambled key : List ℕ)
    (enc : LoginEncryption)
    → IsInt (2 ^ 31) session_id
    → 170 ≤ length p
    → slice 0 1 p ≡ (0x00 ∷ [])
    → slice 1 4 p ≡ le_bytes 4 (word (2 ^ 32) session_id)
    → slice 5 4 p ≡ le_bytes 4 0x0000c621
    → slice 9 128 p ≡ scrambled
    → slice 153 16 p ≡ key
    → unscramble_modulus scrambled ≡ ok modulus
    → new_login_encryption new_cipher key ≡ ok enc
    → parse_init new_cipher p
      ≡ ok (record {
        session_id = session_id;
        protocol_version = 0x0000c621;
        rsa_modulus = modulus;
        blowfish_key = key;
        enc = enc;
      })
unfolding parse_init word_at
parse_init-fields new_cipher p session_id modulus scrambled key enc int room opcode id revision m k
      restored made =
    let zero_first = byte_of-slice p 0x00 opcode in
    let enough : ltb (length p) 170 ≡ false = ground arith in
    let number : of_le (le_bytes 4 (word (2 ^ 32) session_id)) ≡ word (2 ^ 32) session_id =
      of_le-le_bytes 4 (word (2 ^ 32) session_id) (ground arith) in
    rw
      (
        parse_init,
        zero_first,
        enough,
        m,
        restored,
        k,
        made,
        id,
        revision,
        number,
        int32-word session_id int,
      )
      refl

-- What stands behind a header of two bytes.
slice-header : (a b j k : ℕ) (bytes : List ℕ) → slice (2 + j) k (a ∷ b ∷ bytes) ≡ slice j k bytes
unfolding slice
slice-header a b j k bytes = let e : 2 + j ≡ suc (suc j) = omega arith in rw e refl

-- The parts of a payload that was kept from the place behind the header.
payload_part :
    (a b j k : ℕ) (plain bytes : List ℕ)
    → j + k ≤ 170
    → slice 2 170 plain ≡ slice 2 170 (a ∷ b ∷ bytes)
    → slice j k (slice 2 192 plain) ≡ slice j k bytes
payload_part a b j k plain bytes h kept =
    slice-slice 2 192 j k plain (omega arith)
    ∙ sym (slice-slice 2 170 j k plain h)
    ∙ ap (slice j k) kept
    ∙ slice-slice 2 170 j k (a ∷ b ∷ bytes) h
    ∙ slice-header a b j k bytes

payload_length :
    (plain bytes : List ℕ)
    → slice 2 170 plain ≡ slice 2 170 bytes
    → 172 ≤ length bytes
    → 170 ≤ length (slice 2 192 plain)
unfolding slice
payload_length plain bytes kept h =
    let same = ap length kept in
    omega (
      arith,
      length-take 170 (drop 2 plain),
      length-take 170 (drop 2 bytes),
      length-take 192 (drop 2 plain),
      length-drop 2 plain,
      length-drop 2 bytes,
    )

-- What the client is after the first packet of a session.
abbrev pub knows : ℤ → List ℕ → List ℕ → LoginEncryption → LoginClient
knows session_id modulus key enc = record {
  session_id = session_id;
  protocol_version = 0x0000c621;
  rsa_modulus = modulus;
  blowfish_key = key;
  enc = enc;
}

module _ (new_cipher : CipherFactory) (enc : LoginEncryption) (xor_key : ℕ) (session_id : ℤ)
    (modulus scrambled key : List ℕ) (made : new_login_encryption new_cipher key ≡ ok enc)
    (law : IsBlockCipher enc.static_cipher) (word_key : xor_key < 2 ^ 32)
    (int : IsInt (2 ^ 31) session_id) (modulus_bytes : IsBytes modulus)
    (modulus_size : length modulus ≡ 128) (hidden : scramble_modulus modulus ≡ ok scrambled)
    (scrambled_bytes : IsBytes scrambled) (scrambled_size : length scrambled ≡ 128)
    (key_bytes : IsBytes key) (key_size : length key ≡ 16) where
  restored : unscramble_modulus scrambled ≡ ok modulus
  restored = rw hidden at ((unscramble-scramble_modulus modulus modulus_bytes modulus_size).0)

  -- Init as it stands behind the header.
  abbrev written : List ℕ → List ℕ
  written tail = init tail session_id scrambled key

  parsed :
      (a b : ℕ) (tail plain : List ℕ)
      → 170 ≤ length tail
      → slice 2 170 plain ≡ slice 2 170 (a ∷ b ∷ written tail)
      → parse_init new_cipher (slice 2 192 plain) ≡ ok (knows session_id modulus key enc)
  parsed a b tail plain room kept =
      let same = length-init tail session_id scrambled key room scrambled_size key_size in
      let part = λ (j k : ℕ) (h : j + k ≤ 170). payload_part a b j k plain (written tail) h kept in
      parse_init-fields new_cipher (slice 2 192 plain) session_id modulus scrambled key enc int
        (payload_length plain (a ∷ b ∷ written tail) kept (omega arith))
        (part 0 1 (omega arith)
          ∙ slice-init-opcode tail session_id scrambled key room scrambled_size key_size)
        (part 1 4 (omega arith)
          ∙ slice-init-session_id tail session_id scrambled key room scrambled_size key_size)
        (part 5 4 (omega arith)
          ∙ slice-init-revision tail session_id scrambled key room scrambled_size key_size)
        (part 9 128 (omega arith)
          ∙ slice-init-modulus tail session_id scrambled key room scrambled_size key_size)
        (part 153 16 (omega arith)
          ∙ slice-init-key tail session_id scrambled key room scrambled_size key_size)
        restored made

  -- The first packet of a session, sent from a buffer of bytes with room for it, is read by a client
  -- with a buffer of 192 bytes or more: the client has the id of the session, the revision, the
  -- modulus unscrambled, the key and an encryption as the server's at the start, and the rest of the
  -- stream is left; the server has left its first packet behind. The modulus has 128 bytes and the
  -- key 16, the encryption is new under the key, and its static cipher is a block cipher.
  pub read_init_packet-send_init :
      (buf : List ℕ) (buf_len : ℕ) (rest : List ℕ)
      → IsBytes buf
      → 194 ≤ length buf
      → 192 ≤ buf_len
      → (sent : List ℕ) × (send_init xor_key enc session_id scrambled key buf
          ≡ (record enc { first_packet = false }, ok sent))
        × (read_init_packet new_cipher buf_len (sent ++ rest)
            ≡ ok (knows session_id modulus key enc, rest))
  unfolding send_init write_packet open_init_payload open_init
  read_init_packet-send_init [] buf_len rest isb fits holds = absurd (omega arith)
  read_init_packet-send_init (a ∷ []) buf_len rest isb fits holds = absurd (omega arith)
  read_init_packet-send_init (a ∷ b ∷ tail) buf_len rest (ha, (hb, ht)) fits holds =
      let room : 170 ≤ length tail = omega arith in
      let x = written tail in
      let width = length-init tail session_id scrambled key room scrambled_size key_size in
      let cleared = overwrite 172 (replicate 16 0) (a ∷ b ∷ x) in
      let cleared_bytes : IsBytes cleared =
        overwrite-IsBytes 172 (replicate 16 0) (a ∷ b ∷ x) (replicate-IsBytes 16) (
          ha,
          (
            hb,
            init-IsBytes tail session_id scrambled key room scrambled_size key_size ht
                scrambled_bytes key_bytes,
          ),
        ) in
      let cleared_width : length cleared ≡ length (a ∷ b ∷ x) =
        length-overwrite 172 (replicate 16 0) (a ∷ b ∷ x) (omega arith) in
      let (static, first) = new_login_encryption_lem new_cipher key enc made in
      let (sealed, plain, done, opened, kept, same) =
        open_init-encrypt_packet enc law cleared 2 170 cleared_bytes xor_key word_key first
          (omega arith) in
      let enough : ltb (length (a ∷ b ∷ x)) 188 ≡ false = ground arith in
      let whole : 2 + 192 ≤ length sealed = omega arith in
      let stands : slice 2 170 plain ≡ slice 2 170 (a ∷ b ∷ x) =
        kept ∙ slice-overwrite_before 2 170 172 (replicate 16 0) (a ∷ b ∷ x) (omega arith) in
      let part = open_init-window enc sealed plain 2 192 law refl (omega arith) whole opened in
      let size = length-slice 2 192 sealed whole in
      let client_opens : open_init_payload new_cipher (slice 2 192 sealed)
          ≡ ok (slice 2 192 plain) =
        rw (open_init_payload, static, size) part in
      (
        frame_header 192 ++ slice 2 192 sealed,
        rw (enough, done, framed_ok 192 sealed whole) refl,
        read_init_packet-frame new_cipher buf_len 192 (slice 2 192 sealed) rest (slice 2 192 plain)
            (knows session_id modulus key enc) size holds (omega arith) client_opens
            (parsed a b tail plain room stands),
      )
