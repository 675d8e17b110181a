-- ===== src/Crypto/Checksum.antt =====
-- internal/crypto/blowfish.go: `AppendChecksum` and `VerifyChecksum`.
pub mod Laws
use la2go.Prelude.{
  ℕ, zero, suc, ◌+◌, ◌-◌, ◌/◌, ◌%◌, bit_xor, List, Bool, not, ◌||◌, ltb, leb, ◌==◌, if◌then◌else◌,
  Result, ok, panic, ◌>>=◌,
}
use la2go.Bytes.{read_u32, write_u32}

-- How often the body of `for i := from; i < to; i += 4` runs.
abbrev pub rounds : ℕ → ℕ → ℕ
rounds from to = (to - from + 3) / 4

-- The loop of both functions at index `i`, with `left` rounds to go.
unfoldable pub checksum_loop : ℕ → List ℕ → ℕ → ℕ → Result ℕ
checksum_loop zero bytes i checksum = ok checksum
checksum_loop (suc left) bytes i checksum =
    read_u32 bytes i >>= λ w. checksum_loop left bytes (i + 4) (bit_xor checksum w)

-- A negative index panics.
unfoldable pub append_checksum : List ℕ → ℕ → ℕ → Result (List ℕ)
append_checksum bytes offset size =
    let stop = offset + size - 4 in
    if ltb (offset + size) 4
    then panic
    else (checksum_loop (rounds offset stop) bytes offset 0 >>= λ checksum.
        write_u32 bytes stop checksum)

unfoldable pub verify_checksum : List ℕ → ℕ → ℕ → Result Bool
verify_checksum bytes offset size =
    if not (size % 4 == 0) || leb size 4
    then ok Bool.false
    else (checksum_loop (rounds offset (offset + size)) bytes offset 0 >>= λ checksum.
        ok (checksum == 0))
