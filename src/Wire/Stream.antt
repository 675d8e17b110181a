-- ===== src/Wire/Stream.antt =====
-- What a connection delivers, as the list of the bytes that arrive before its end. `io.ReadFull` takes
-- exactly as many bytes as asked for, or fails. The sizes of internal/constants/protocol.go.
use la2go.Prelude.{
  ℕ, ◌≡◌, true, refl, List, ◌++◌, leb, if◌then◌else◌, Option, none, some, length, take, drop, arith,
  length-append, take-length-append, drop-length-append,
}

abbrev pub header_size : ℕ
header_size = 2

abbrev pub checksum_size : ℕ
checksum_size = 4

abbrev pub padding_align : ℕ
padding_align = 8

abbrev pub buffer_padding : ℕ
buffer_padding = 16

unfoldable pub read_full : ℕ → List ℕ → Option (List ℕ × List ℕ)
read_full n stream = if leb n (length stream) then some (take n stream, drop n stream) else none

-- A read that asks for the bytes that stand first.
pub read_full-append :
    (n : ℕ) (bs rest : List ℕ) → length bs ≡ n → read_full n (bs ++ rest) ≡ some (bs, rest)
unfolding read_full
read_full-append n bs rest e =
    let room : leb (length bs) (length (bs ++ rest)) ≡ true =
      ground (arith, length-append bs rest) in
    rw (← e, room, take-length-append bs rest, drop-length-append bs rest) refl
