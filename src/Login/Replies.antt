-- ===== src/Login/Replies.antt =====
-- What `LoginClient` of internal/testutil/client.go makes of the payload that ReadPacket gives it. An
-- answer that turns the client down is the error `request_refused`; its reason is left out.
use la2go.Prelude.{
  ℕ, suc, ◌^◌, ◌==◌, ◌≡◌, refl, List, [], ◌∷◌, ◌++◌, replicate, not, false, ◌||◌, ltb,
  if◌then◌else◌, length, Result, ok, err, check, guard, ◌>>◌, ◌>>=◌, packet_too_short,
  invalid_opcode, request_refused, arith,
}
use la2go.Prelude.Int.{ℤ, int32, word, IsInt, int32-word}
use la2go.Bytes.{le_bytes, slice, word_at}
use la2go.Bytes.Words.{of_le-le_bytes}
use la2go.Crypto.Encryption.{LoginEncryption}
use la2go.Login.ServerPackets.{login_ok, play_ok, login_fail, play_fail}
use la2go.Wire.Protocol.{read_packet}

-- `ReadGGAuth` and `ReadServerList`: the payload, if its opcode is the one that is expected.
unfoldable pub expect_opcode : ℕ → List ℕ → Result (List ℕ)
expect_opcode expected [] = err packet_too_short
expect_opcode expected (opcode ∷ body) =
    guard (opcode == expected) invalid_opcode >> ok (opcode ∷ body)

unfoldable pub read_gg_auth : LoginEncryption → ℕ → List ℕ → Result (List ℕ × List ℕ)
read_gg_auth enc buf_len stream =
    read_packet enc buf_len stream
    >>= (λ (payload, rest). expect_opcode 0x0b payload >>= (λ p. ok (p, rest)))

unfoldable pub read_server_list : LoginEncryption → ℕ → List ℕ → Result (List ℕ × List ℕ)
read_server_list enc buf_len stream =
    read_packet enc buf_len stream
    >>= (λ (payload, rest). expect_opcode 0x04 payload >>= (λ p. ok (p, rest)))

-- The two words behind an opcode.
abbrev two_ids : List ℕ → Result (ℤ × ℤ)
two_ids payload =
    guard (not (ltb (length payload) 9)) packet_too_short
    >> ok (int32 (word_at payload 1), int32 (word_at payload 5))

-- `payload[1]`, which goes into the message of the error.
abbrev refusal : List ℕ → Result (ℤ × ℤ)
refusal payload = check (not (ltb (length payload) 2)) >> err request_refused

unfoldable pub parse_login_ok : List ℕ → Result (ℤ × ℤ)
parse_login_ok [] = err packet_too_short
parse_login_ok (opcode ∷ body) =
    if opcode == 0x03
    then two_ids (opcode ∷ body)
    else if opcode == 0x04
    then err request_refused
    else if (opcode == 0x01) || (opcode == 0x02)
    then refusal (opcode ∷ body)
    else err invalid_opcode

unfoldable pub parse_play_ok : List ℕ → Result (ℤ × ℤ)
parse_play_ok [] = err packet_too_short
parse_play_ok (opcode ∷ body) =
    if opcode == 0x07
    then two_ids (opcode ∷ body)
    else if opcode == 0x06
    then refusal (opcode ∷ body)
    else err invalid_opcode

-- `ReadLoginFail` and `ReadPlayFail`: the reason behind the opcode.
unfoldable pub parse_fail : ℕ → List ℕ → Result ℕ
parse_fail expected (opcode ∷ reason ∷ body) =
    guard (opcode == expected) invalid_opcode >> ok reason
parse_fail expected payload = err packet_too_short

two_ids-append :
    (opcode : ℕ) (id1 id2 : ℤ) (padding : List ℕ)
    → IsInt (2 ^ 31) id1
    → IsInt (2 ^ 31) id2
    → two_ids
        (opcode ∷ (le_bytes 4 (word (2 ^ 32) id1) ++ (le_bytes 4 (word (2 ^ 32) id2) ++ padding)))
      ≡ ok (id1, id2)
unfolding word_at slice
two_ids-append opcode id1 id2 padding h g =
    let back =
      λ (id : ℤ) (int : IsInt (2 ^ 31) id). of_le-le_bytes 4 (word (2 ^ 32) id) (ground arith) in
    let packet =
      opcode ∷ (le_bytes 4 (word (2 ^ 32) id1) ++ (le_bytes 4 (word (2 ^ 32) id2) ++ padding)) in
    let long : ltb (length packet) 9 ≡ false = ground arith in
    rw (long, back id1 h, back id2 g, int32-word id1 h, int32-word id2 g) refl

-- The ids of LoginOk and of PlayOk, int32 numbers, reach the client, whatever padding follows the
-- packet; LoginFail and PlayFail come out as an error where a success is read, and as their reason
-- where they are expected.
pub parse_login_ok-login_ok :
    (id1 id2 : ℤ) (reason : ℕ) (padding : List ℕ)
    → IsInt (2 ^ 31) id1
    → IsInt (2 ^ 31) id2
    → (parse_login_ok (login_ok id1 id2 ++ padding) ≡ ok (id1, id2))
      × (parse_play_ok (play_ok id1 id2 ++ padding) ≡ ok (id1, id2))
      × (parse_login_ok (login_fail reason ++ padding) ≡ err request_refused)
      × (parse_play_ok (play_fail reason ++ padding) ≡ err request_refused)
      × (parse_fail 0x01 (login_fail reason ++ padding) ≡ ok reason)
      × (parse_fail 0x06 (play_fail reason ++ padding) ≡ ok reason)
unfolding parse_login_ok parse_play_ok parse_fail login_ok play_ok login_fail play_fail
parse_login_ok-login_ok id1 id2 reason padding h g =
    let long : ltb (suc (suc (length padding))) 2 ≡ false = ground arith in
    (
      two_ids-append 0x03 id1 id2 ((replicate 8 0 ++ le_bytes 4 0x3ea ++ replicate 28 0) ++ padding)
          h g,
      two_ids-append 0x07 id1 id2 padding h g,
      rw long refl,
      rw long refl,
      refl,
      refl,
    )
