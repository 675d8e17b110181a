-- ===== src/Wire/Tests.antt =====
-- Packets of five bytes on the two kinds of connections, under the stand-in cipher of Crypto.Tests.
use la2go.Prelude.{ℕ, ◌-◌, ◌≡◌, ◌≤◌, refl, List, [], ◌∷◌, ◌++◌, length, take, replicate, ok, arith}
use la2go.Bytes.{slice}
use la2go.Crypto.Tests.{shift_cipher, shift_cipher-IsBlockCipher, later_packets, buffer}
use la2go.Crypto.Blowfish.{Cipher}
use la2go.Crypto.Checksum.{append_checksum}
use la2go.Crypto.Encryption.{align8}
use la2go.Wire.Frame.{frame_header}
use la2go.Wire.Protocol.{write_packet, read_packet}
use la2go.Wire.RoundTrip.{read_packet-write_packet}
use la2go.Wire.GsProtocol.{encrypted_size, gs_write_packet, gs_read_packet}
use la2go.Wire.GsRoundTrip.{gs_read_packet-gs_write_packet}
use la2go.Wire.Plaintext.{gs_read_packet_plaintext}

read_packet-write_packet_example :
    (sent : List ℕ) × (plain : List ℕ) × (write_packet 0 later_packets buffer 5
      ≡ (later_packets, ok sent))
    × (read_packet later_packets 512 (sent ++ (9 ∷ [])) ≡ ok (plain, 9 ∷ []))
    × (take 5 plain ≡ slice 2 5 buffer)
    × (length plain ≡ align8 9)
read_packet-write_packet_example =
    read_packet-write_packet later_packets shift_cipher-IsBlockCipher buffer 5 (omega arith)
      (omega arith) 0 512 (9 ∷ []) refl (omega arith) (omega arith)

-- The buffer of a reader.
abbrev read_buffer : List ℕ
read_buffer = replicate 64 7

gs_read_packet-gs_write_packet_example :
    (sent : List ℕ) × (gs_write_packet shift_cipher buffer 5 ≡ ok sent)
    × (gs_read_packet shift_cipher read_buffer (sent ++ (9 ∷ []))
        ≡ ok (slice 2 (encrypted_size 5 - 4) buffer, 9 ∷ []))
    × (5 ≤ encrypted_size 5 - 4)
unfolding encrypted_size
gs_read_packet-gs_write_packet_example =
    gs_read_packet-gs_write_packet shift_cipher shift_cipher-IsBlockCipher buffer 5 (omega arith)
      (omega arith) read_buffer (9 ∷ []) (omega arith) (omega arith)

abbrev clear_bytes : List ℕ
clear_bytes = 1 ∷ 2 ∷ 3 ∷ 4 ∷ 5 ∷ 6 ∷ 7 ∷ 8 ∷ 0 ∷ 0 ∷ 0 ∷ 0 ∷ []

gs_read_packet_plaintext_example :
    (sent : List ℕ) × (append_checksum clear_bytes 0 12 ≡ ok sent)
    × ((cipher : Cipher)
        → gs_read_packet cipher read_buffer ((frame_header 12 ++ sent) ++ (9 ∷ []))
          ≡ ok (take 8 clear_bytes, 9 ∷ []))
gs_read_packet_plaintext_example =
    gs_read_packet_plaintext clear_bytes read_buffer (9 ∷ []) 12 (omega arith) refl refl
      (omega arith) (omega arith) (omega arith)
