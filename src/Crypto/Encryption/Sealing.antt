-- ===== src/Crypto/Encryption/Sealing.antt =====
-- A packet that one side seals is opened by the other.
use la2go.Prelude.{
  ℕ, zero, suc, ◌+◌, ◌-◌, ◌%◌, ◌≤◌, ◌<◌, ◌≡◌, ◌∙◌, List, true, false, arith, length, replicate,
  length-replicate, ok,
}
use la2go.Bytes.{IsBytes, slice, overwrite}
use la2go.Bytes.Slices.{length-overwrite, slice-overwrite_before, overwrite-IsBytes}
use la2go.Crypto.Checksum.Laws.{
  summed, append_checksum_ok, verify_checksum_ok, length-summed, summed-IsBytes, slice-summed,
}
use la2go.Crypto.Blowfish.{IsBlockCipher}
use la2go.Crypto.Blowfish.Laws.{decrypt-encrypt_range}
use la2go.Crypto.Encryption.{
  LoginEncryption, align8, zero_fill, seal, encrypt_packet, decrypt_packet, encrypt_packet_client,
}

pub align8_lem : (n : ℕ) → (align8 n % 8 ≡ 0) × (n ≤ align8 n) × (align8 n < n + 8)
align8_lem n = ground arith

pub replicate-IsBytes : (k : ℕ) → IsBytes (replicate k 0)
replicate-IsBytes zero = tt
replicate-IsBytes (suc k) = (omega arith, replicate-IsBytes k)

module _ (le : LoginEncryption) (law : IsBlockCipher le.dynamic_cipher) (bytes : List ℕ)
    (offset size : ℕ) (isb : IsBytes bytes) (fits : offset + align8 (size + 4) ≤ length bytes) where
  total : ℕ
  total = align8 (size + 4)

  cleared : List ℕ
  cleared = overwrite (offset + size) (replicate (total - size) 0) bytes

  total_lem :
      (total % 8 ≡ 0)
      × (total % 4 ≡ 0)
      × (size + 4 ≤ total)
      × (4 < total)
      × (offset + total ≤ length bytes)
  unfolding total
  total_lem = omega (arith, align8_lem (size + 4))

  length-cleared : length cleared ≡ length bytes
  unfolding cleared
  length-cleared =
      length-overwrite (offset + size) (replicate (total - size) 0) bytes
        (omega (arith, total_lem, length-replicate {A = ℕ} (total - size) 0))

  cleared-IsBytes : IsBytes cleared
  unfolding cleared
  cleared-IsBytes = overwrite-IsBytes (offset + size) _ bytes (replicate-IsBytes (total - size)) isb

  zero_fill_ok : zero_fill bytes (offset + size) (offset + total) ≡ ok cleared
  unfolding zero_fill cleared
  zero_fill_ok =
      let gap : offset + total - (offset + size) ≡ total - size = omega arith in
      rw gap (ground (arith, total_lem))

  -- `seal` succeeds, and what it made is opened, checksum included, with the payload in place.
  pub decrypt_packet-seal :
      (sealed : List ℕ) × (plain : List ℕ) × (seal le bytes offset size
        ≡ ok (align8 (size + 4), sealed))
      × (decrypt_packet le sealed offset (align8 (size + 4)) ≡ ok (true, plain))
      × (slice offset size plain ≡ slice offset size bytes)
      × (length sealed ≡ length bytes)
  unfolding seal decrypt_packet total cleared
  decrypt_packet-seal =
      let t = total in
      let h = total_lem in
      let clear_length = length-cleared in
      let clear_bytes = cleared-IsBytes in
      let f : offset + t ≤ length cleared = omega arith in
      let plain = summed cleared offset t clear_bytes h.1 h.3 f in
      let plain_bytes = summed-IsBytes cleared offset t clear_bytes h.1 h.3 f in
      let plain_length = length-summed cleared offset t clear_bytes h.1 h.3 f in
      let (sealed, to, from, kept) =
        decrypt-encrypt_range le.dynamic_cipher law plain offset t plain_bytes h.0 (omega arith) in
      (
        sealed,
        plain,
        rw (zero_fill_ok, append_checksum_ok cleared offset t clear_bytes h.1 h.3 f, to),
        rw (from, verify_checksum_ok cleared offset t clear_bytes h.1 h.3 f) (ground arith),
        slice-summed cleared offset t clear_bytes h.1 h.3 f offset size (omega arith)
            ∙ slice-overwrite_before offset size (offset + size) _ bytes (omega arith),
        kept ∙ plain_length ∙ clear_length,
      )

module _ (le : LoginEncryption) (law : IsBlockCipher le.dynamic_cipher) (bytes : List ℕ)
    (offset size : ℕ) (isb : IsBytes bytes) where
  -- After the first packet, a buffer of bytes with room for the payload padded to 8 and 8 more is
  -- sealed; opening it with the same dynamic key reports a valid checksum and gives the payload
  -- back, and the encryption state stays.
  pub decrypt_packet-encrypt_packet :
      (xor_key : ℕ)
      → le.first_packet ≡ false
      → offset + (align8 size + 8) ≤ length bytes
      → (sealed : List ℕ) × (plain : List ℕ) × (encrypt_packet xor_key le bytes offset size
          ≡ (le, ok (align8 (size + 4), sealed)))
        × (decrypt_packet le sealed offset (align8 (size + 4)) ≡ ok (true, plain))
        × (slice offset size plain ≡ slice offset size bytes)
        × (length sealed ≡ length bytes)
  unfolding encrypt_packet
  decrypt_packet-encrypt_packet xor_key later fits =
      let room : offset + align8 (size + 4) ≤ length bytes = ground arith in
      let (sealed, plain, done, opened, same_payload, same_length) =
        decrypt_packet-seal le law bytes offset size isb room in
      (sealed, plain, rw (later, done) (ground arith), opened, same_payload, same_length)

  -- What the client side seals, in a buffer of bytes with room for the payload and its checksum
  -- padded to 8, opens with a valid checksum and the payload in place.
  pub decrypt_packet-encrypt_packet_client :
      offset + align8 (size + 4) ≤ length bytes
      → (sealed : List ℕ) × (plain : List ℕ) × (encrypt_packet_client le bytes offset size
          ≡ ok (align8 (size + 4), sealed))
        × (decrypt_packet le sealed offset (align8 (size + 4)) ≡ ok (true, plain))
        × (slice offset size plain ≡ slice offset size bytes)
        × (length sealed ≡ length bytes)
  unfolding encrypt_packet_client
  decrypt_packet-encrypt_packet_client room =
      let (sealed, plain, done, opened, same_payload, same_length) =
        decrypt_packet-seal le law bytes offset size isb room in
      (sealed, plain, rw done (ground arith), opened, same_payload, same_length)
