-- ===== src/Wire/GsRoundTrip.antt =====
-- internal/gslistener/protocol.go: a packet that was written is read, with the bytes of its padding;
-- and a packet that was never encrypted can be read too.
use la2go.Prelude.{
  ℕ, ◌+◌, ◌-◌, ◌/◌, ◌%◌, ◌^◌, ◌≤◌, ◌<◌, ◌≡◌, refl, sym, ap, ◌∙◌, List, ◌++◌, true, false, ltb,
  length, take, ok, arith,
}
use mathlib.Core.List.{append_assoc}
use la2go.Bytes.{IsBytes, slice, overwrite}
use la2go.Bytes.Slices.{length-slice, length-overwrite, slice-overwrite}
use la2go.Bytes.Windows.{slice-slice}
use la2go.Crypto.Blowfish.{Cipher, IsBlockCipher, decrypt}
use la2go.Crypto.Blowfish.Laws.{blocks, KeepsLength, decrypt-encrypt_range}
use la2go.Crypto.Checksum.{verify_checksum}
use la2go.Crypto.Checksum.Laws.{
  summed, append_checksum_ok, verify_checksum_ok, length-summed, summed-IsBytes, slice-summed,
}
use la2go.Crypto.Windows.{decrypt_ok, decrypt-window, length-decrypted, verify_checksum-window}
use la2go.Wire.Stream.{read_full-append}
use la2go.Wire.Frame.{framed_ok, frame_header, of_le-frame_header}
use la2go.Wire.GsProtocol.{or_unchanged, encrypted_size, gs_write_packet, gs_opened, gs_read_packet}

-- A frame that fits the reader's buffer is taken apart.
pub gs_read_packet-frame :
    (cipher : Cipher) (buf payload rest plain : List ℕ) (size : ℕ)
    → length payload ≡ size
    → size ≤ length buf
    → 2 + size < 2 ^ 16
    → gs_opened cipher (overwrite 0 payload buf) size ≡ ok plain
    → gs_read_packet cipher buf ((frame_header size ++ payload) ++ rest) ≡ ok (plain, rest)
unfolding gs_read_packet
gs_read_packet-frame cipher buf payload rest plain size width fits small opened =
    let total = of_le-frame_header size small in
    let left : 2 + size - 2 ≡ size = omega arith in
    let t1 : ltb (2 + size) 2 ≡ false = ground arith in
    let t3 : ltb (length buf) size ≡ false = ground arith in
    rw
      (
        gs_read_packet,
        append_assoc (frame_header size) payload rest,
        read_full-append 2 (frame_header size) (payload ++ rest) refl,
        total,
        left,
        t1,
        t3,
        read_full-append size payload rest width,
        total,
        left,
        opened,
      )
      refl

-- The size of what is encrypted.
encrypted_size_bounds :
    (n : ℕ) → (encrypted_size n % 8 ≡ 0) × (n + 4 ≤ encrypted_size n) × (encrypted_size n < n + 12)
unfolding encrypted_size
encrypted_size_bounds n = omega arith

-- The bytes that the reader puts at the start of its buffer.
pub slice-placed :
    (payload buf : List ℕ) (size : ℕ)
    → length payload ≡ size
    → size ≤ length buf
    → slice 0 size (overwrite 0 payload buf) ≡ payload
slice-placed payload buf size e h = rw (← e) (slice-overwrite 0 payload buf (omega arith))

-- Opening what stands at the start of a buffer, from what it is by itself.
pub gs_opened_ok :
    (cipher : Cipher) (buf plain opened : List ℕ) (size : ℕ)
    → size ≤ length buf
    → or_unchanged buf (decrypt cipher buf 0 size) ≡ ok opened
    → length opened ≡ length buf
    → slice 0 size opened ≡ plain
    → verify_checksum plain 0 size ≡ ok true
    → gs_opened cipher buf size ≡ ok (take (size - 4) plain)
unfolding gs_opened slice
gs_opened_ok cipher buf plain opened size h step width e valid =
    let checked : verify_checksum opened 0 size ≡ ok true =
      sym (verify_checksum-window opened 0 size (omega arith))
      ∙ (ap (λ (b : List ℕ). verify_checksum b 0 size) e ∙ valid) in
    let same : take (size - 4) opened ≡ take (size - 4) plain =
      sym (slice-slice 0 size 0 (size - 4) opened (omega arith)) ∙ ap (take (size - 4)) e in
    rw (step, checked, same) refl

-- What a peer opens at the start of its buffer is what stood in the sender's buffer.
opened_alike :
    (c : Cipher) (placed sealed plain : List ℕ) (size : ℕ)
    → KeepsLength c.decrypt_block
    → size % 8 ≡ 0
    → size ≤ length placed
    → 2 + size ≤ length sealed
    → slice 0 size placed ≡ slice 2 size sealed
    → decrypt c sealed 2 size ≡ ok plain
    → slice 0 size (blocks c.decrypt_block (size / 8) placed 0) ≡ slice 2 size plain
opened_alike c placed sealed plain size keep a h g same from =
    let here = decrypt-window c keep placed 0 size a (omega arith) in
    let there = decrypt-window c keep sealed 2 size a g in
    let undone = decrypt_ok c keep sealed 2 size a g in
    let e : blocks c.decrypt_block (size / 8) sealed 2 ≡ plain = cc (sym undone ∙ from) in
    cc (
      sym here
      ∙ ap (λ (b : List ℕ). decrypt c b 0 size) same
      ∙ there
      ∙ ap (λ (b : List ℕ). ok (slice 2 size b)) e)

module _ (c : Cipher) (law : IsBlockCipher c) (buf : List ℕ) (n : ℕ) (isb : IsBytes buf)
    (room : n + 18 ≤ length buf) where
  -- A packet that is written from a buffer of bytes with room for the payload and 18 bytes more, its
  -- length below 2^16, is read by a peer with the same cipher and a buffer that holds it, whatever
  -- that holds and whatever follows on the stream: the reader has the payload and, behind it, the
  -- bytes that stood behind it in the writer's buffer, up to four less than a multiple of 8.
  pub gs_read_packet-gs_write_packet :
      (rbuf rest : List ℕ)
      → encrypted_size n ≤ length rbuf
      → 2 + encrypted_size n < 2 ^ 16
      → (sent : List ℕ) × (gs_write_packet c buf n ≡ ok sent)
        × (gs_read_packet c rbuf (sent ++ rest) ≡ ok (slice 2 (encrypted_size n - 4) buf, rest))
        × (n ≤ encrypted_size n - 4)
  unfolding gs_write_packet slice
  gs_read_packet-gs_write_packet rbuf rest fits small =
      let size = encrypted_size n in
      let (aligned, above, below) = encrypted_size_bounds n in
      let whole : 2 + size ≤ length buf = omega arith in
      let a4 : size % 4 ≡ 0 = omega arith in
      let big : 4 < size = omega arith in
      let plain = summed buf 2 size isb a4 big whole in
      let plain_width = length-summed buf 2 size isb a4 big whole in
      let plain_bytes = summed-IsBytes buf 2 size isb a4 big whole in
      let (sealed, to, from, width) =
        decrypt-encrypt_range c law plain 2 size plain_bytes aligned (omega arith) in
      let window = slice 2 size sealed in
      let window_width = length-slice 2 size sealed (omega arith) in
      let placed = overwrite 0 window rbuf in
      let placed_width = length-overwrite 0 window rbuf (omega arith) in
      let changed = blocks c.decrypt_block (size / 8) placed 0 in
      let t1 : ltb (length buf) (n + 18) ≡ false = ground arith in
      (
        frame_header size ++ window,
        rw
            (
              t1,
              append_checksum_ok buf 2 size isb a4 big whole,
              to,
              framed_ok size sealed (omega arith),
            )
            refl,
        gs_read_packet-frame c rbuf window rest _ size window_width fits small (
            gs_opened_ok c placed (slice 2 size plain) changed size (omega arith)
              (ap (or_unchanged placed)
                (decrypt_ok c law.length-decrypt placed 0 size aligned (omega arith)))
              (length-decrypted c law.length-decrypt placed 0 size aligned (omega arith))
              (opened_alike c placed sealed plain size law.length-decrypt aligned (omega arith)
                (omega arith) (slice-placed window rbuf size window_width fits) from)
              (verify_checksum-window plain 2 size (omega arith)
                ∙ verify_checksum_ok buf 2 size isb a4 big whole)
            ∙ ap ok (
                slice-slice 2 size 0 (size - 4) plain (omega arith)
                ∙ slice-summed buf 2 size isb a4 big whole 2 (size - 4) (omega arith))),
        omega arith,
      )
