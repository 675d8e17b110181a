-- ===== src/Crypto/Encryption/Init.antt =====
-- The first packet of a connection.
use la2go.Prelude.{
  ℕ, ◌+◌, ◌-◌, ◌%◌, ◌^◌, ◌≤◌, ◌<◌, ◌≡◌, ◌∙◌, List, true, false, arith, length, Result, ok, panic,
  ◌>>=◌,
}
use la2go.Bytes.{IsBytes, slice, put_word}
use la2go.Bytes.Words.{slice-put_before}
use la2go.Crypto.XorPass.{dec_xor_pass}
use la2go.Crypto.XorPass.RoundTrip.{
  passed, enc_xor_pass_ok, dec_xor_pass_ok, length-passed, passed-IsBytes, last_key,
  enc_xor_pass_panic,
}
use la2go.Crypto.Blowfish.{IsBlockCipher, decrypt}
use la2go.Crypto.Blowfish.Laws.{decrypt-encrypt_range}
use la2go.Crypto.Encryption.{LoginEncryption, align8, seal_init, encrypt_packet}
use la2go.Crypto.Encryption.Sealing.{align8_lem}

-- What a client does to the first packet: static Blowfish, then the backward XOR pass.
unfoldable pub open_init : LoginEncryption → List ℕ → ℕ → ℕ → Result (List ℕ)
open_init le bytes offset size =
    decrypt le.static_cipher bytes offset size >>= λ passed. dec_xor_pass passed offset size

module _ (le : LoginEncryption) (law : IsBlockCipher le.static_cipher) (bytes : List ℕ)
    (offset size : ℕ) (isb : IsBytes bytes) (xor_key : ℕ) (word : xor_key < 2 ^ 32)
    (first : le.first_packet ≡ true) where
  -- The first packet, in a buffer with room for what is sent, is sealed under the static key and
  -- the random word, clears the flag, and is opened by the reverse steps with its payload in place.
  pub open_init-encrypt_packet :
      offset + (align8 (size + 8) + 8) ≤ length bytes
      → (sealed : List ℕ) × (plain : List ℕ) × (encrypt_packet xor_key le bytes offset size
          ≡ (record le { first_packet = false }, ok (align8 (size + 8) + 8, sealed)))
        × (open_init le sealed offset (align8 (size + 8) + 8) ≡ ok plain)
        × (slice offset size plain ≡ slice offset size bytes)
        × (length sealed ≡ length bytes)
  unfolding encrypt_packet seal_init open_init
  open_init-encrypt_packet fits =
      let total = align8 (size + 8) + 8 in
      let (whole, above, below) = align8_lem (size + 8) in
      let a4 : total % 4 ≡ 0 = omega arith in
      let a8 : total % 8 ≡ 0 = omega arith in
      let room : 12 ≤ total = omega arith in
      let mixed = passed bytes offset total xor_key isb a4 room fits word in
      let mixed_bytes = passed-IsBytes bytes offset total xor_key isb a4 room fits word in
      let mixed_length = length-passed bytes offset total xor_key isb a4 room fits word in
      let (sealed, to, from, kept) =
        decrypt-encrypt_range le.static_cipher law mixed offset total mixed_bytes a8
          (omega arith) in
      let last = last_key bytes offset total xor_key isb a4 room fits word in
      (
        sealed,
        put_word bytes (offset + total - 8) last,
        rw (first, enc_xor_pass_ok bytes offset total xor_key isb a4 room fits word, to)
            (ground arith),
        rw (from, dec_xor_pass_ok bytes offset total xor_key isb a4 room fits word),
        slice-put_before offset size bytes (offset + total - 8) last (omega arith),
        kept ∙ mixed_length,
      )

-- The size test of `EncryptPacket` is too weak for the first packet: with room for the padded
-- payload and 8 to 11 more bytes it passes, and the XOR pass then writes out of range.
pub encrypt_packet_first_panics :
    (le : LoginEncryption) (bytes : List ℕ) (offset size xor_key : ℕ)
    → le.first_packet ≡ true
    → offset + (align8 size + 8) ≤ length bytes
    → length bytes < offset + (align8 size + 12)
    → (encrypt_packet xor_key le bytes offset size).1 ≡ panic
unfolding encrypt_packet seal_init
encrypt_packet_first_panics le bytes offset size xor_key first passes short =
    let total = align8 (size + 8) + 8 in
    let (whole, above, below) = align8_lem size in
    let grown : total ≡ align8 size + 16 = ground arith in
    let stops =
      enc_xor_pass_panic bytes offset total xor_key (omega arith) (omega arith) (omega arith)
        (omega arith) in
    rw (first, stops) (ground arith)
