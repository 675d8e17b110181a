-- ===== src/Relay/ServerPackets.antt =====
-- internal/gslistener/serverpackets: the packets to a game server, as the bytes that each function
-- writes at the start of its buffer.
use la2go.Prelude.{
  ℕ, ◌-◌, ◌^◌, List, [], ◌∷◌, ◌++◌, Bool, ◌&&◌, ◌||◌, if◌then◌else◌, length, take, leb, ltb,
  replicate,
}
use la2go.Prelude.Int.{ℤ, word}
use la2go.Bytes.{le_bytes}
use la2go.Packet.Writer.{rune_bytes}

-- `utf16.Encode([]rune(text))`, each unit in two bytes, the lower first.
unfoldable pub utf16_bytes : List ℕ → List ℕ
utf16_bytes [] = []
utf16_bytes (r ∷ text) =
    rune_bytes (if (leb 0xd800 r && ltb r 0xe000) || ltb 0x10ffff r then 0xfffd else r)
    ++ utf16_bytes text

unfoldable pub auth_response : ℕ → List ℕ → List ℕ
auth_response server_id server_name = 0x02 ∷ server_id ∷ (utf16_bytes server_name ++ (0 ∷ 0 ∷ []))

unfoldable pub init_ls : ℤ → List ℕ → List ℕ
init_ls revision rsa_modulus =
    0x00
    ∷ (le_bytes 4 (word (2 ^ 32) revision)
        ++ le_bytes 4 64
        ++ (if leb 64 (length rsa_modulus)
            then take 64 rsa_modulus
            else replicate (64 - length rsa_modulus) 0 ++ rsa_modulus))

unfoldable pub login_server_fail : ℕ → List ℕ
login_server_fail reason = 0x01 ∷ reason ∷ []

unfoldable pub player_auth_response : List ℕ → Bool → List ℕ
player_auth_response account success =
    0x03 ∷ (utf16_bytes account ++ (0 ∷ 0 ∷ (if success then 1 else 0) ∷ []))
