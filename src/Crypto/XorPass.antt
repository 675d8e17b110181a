-- ===== src/Crypto/XorPass.antt =====
-- internal/crypto/blowfish.go: `EncXORPass` and `DecXORPass`, on 32-bit words with wrap-around.
pub mod Laws
pub mod RoundTrip
pub mod Windows
use la2go.Prelude.{
  ℕ, zero, suc, ◌+◌, ◌-◌, ◌/◌, ◌%◌, ◌^◌, bit_xor, List, ltb, if◌then◌else◌, Result, ok, panic,
  ◌>>=◌,
}
use la2go.Bytes.{read_u32, write_u32}
use la2go.Crypto.Checksum.{rounds}

-- `ecx += edx` and `ecx -= edx` on uint32.
abbrev pub add_u32 : ℕ → ℕ → ℕ
add_u32 a b = (a + b) % 2 ^ 32

abbrev pub sub_u32 : ℕ → ℕ → ℕ
sub_u32 a b = (a + 2 ^ 32 - b) % 2 ^ 32

-- The forward loop at `pos`, with `left` rounds to go: the buffer and the key at the end.
pub enc_loop : ℕ → List ℕ → ℕ → ℕ → Result (List ℕ × ℕ)
enc_loop zero bytes pos ecx = ok (bytes, ecx)
enc_loop (suc left) bytes pos ecx = do
  edx ← read_u32 bytes pos
  bytes' ← write_u32 bytes pos (bit_xor edx (add_u32 ecx edx))
  enc_loop left bytes' (pos + 4) (add_u32 ecx edx)

-- `key` is the bit pattern of the int32. A negative index panics.
pub enc_xor_pass : List ℕ → ℕ → ℕ → ℕ → Result (List ℕ)
enc_xor_pass bytes offset size key =
    let stop = offset + size - 8 in
    if ltb (offset + size) 8 then panic else (do
      (bytes', ecx) ← enc_loop (rounds (offset + 4) stop) bytes (offset + 4) key
      write_u32 bytes' stop ecx)

-- The backward loop at `i`, with `left` rounds to go.
pub dec_loop : ℕ → List ℕ → ℕ → ℕ → Result (List ℕ × ℕ)
dec_loop zero bytes i ecx = ok (bytes, ecx)
dec_loop (suc left) bytes i ecx = do
  edx ← read_u32 bytes i
  bytes' ← write_u32 bytes i (bit_xor edx ecx)
  dec_loop left bytes' (i - 4) (sub_u32 ecx (bit_xor edx ecx))

-- `for i := stop - 4; i >= pos; i -= 4` runs (stop - pos) / 4 times.
pub dec_xor_pass : List ℕ → ℕ → ℕ → Result (List ℕ)
dec_xor_pass bytes offset size =
    let stop = offset + size - 8 in
    if ltb (offset + size) 8 then panic else (do
      ecx ← read_u32 bytes stop
      (bytes', last) ← dec_loop ((stop - (offset + 4)) / 4) bytes (stop - 4) ecx
      ok bytes')
