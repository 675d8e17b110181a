-- ===== src/Login/ServerPackets.antt =====
-- internal/login/serverpackets: the packets of the login server. Each function of the source fills
-- a buffer from its start and returns how much it filled; the model returns those bytes.
use la2go.Prelude.{
  ℕ, ◌%◌, ◌^◌, List, [], ◌∷◌, ◌++◌, Bool, if◌then◌else◌, length, take, Option, none, some,
  replicate,
}
use la2go.Prelude.Int.{ℤ, word}
use la2go.Bytes.{le_bytes, overwrite, put_word}

abbrev u32 : ℤ → List ℕ
u32 z = le_bytes 4 (word (2 ^ 32) z)

abbrev u16 : ℤ → List ℕ
u16 z = le_bytes 2 (word (2 ^ 16) z)

abbrev flag : Bool → ℕ
flag b = if b then 1 else 0

-- `Init` fills its buffer in place, from offset 0 to 170.
unfoldable pub init : List ℕ → ℤ → List ℕ → List ℕ → List ℕ
init buf session_id scrambled_modulus blowfish_key =
    let buf1 = overwrite 0 (0x00 ∷ []) buf in
    let buf2 = put_word buf1 1 (word (2 ^ 32) session_id) in
    let buf3 = put_word buf2 5 0x0000c621 in
    let buf4 = overwrite 9 scrambled_modulus buf3 in
    let buf5 = put_word buf4 137 0x29dd954e in
    let buf6 = put_word buf5 141 0x77c39cfc in
    let buf7 = put_word buf6 145 0x97adb620 in
    let buf8 = put_word buf7 149 0x07bde0f7 in
    let buf9 = overwrite 153 blowfish_key buf8 in overwrite 169 (0x00 ∷ []) buf9

unfoldable pub account_kicked : ℤ → List ℕ
account_kicked reason = 0x02 ∷ u32 reason

unfoldable pub gg_auth : ℤ → List ℕ
gg_auth session_id = 0x0b ∷ (u32 session_id ++ replicate 16 0)

unfoldable pub login_fail : ℕ → List ℕ
login_fail reason = 0x01 ∷ reason ∷ []

unfoldable pub login_ok : ℤ → ℤ → List ℕ
login_ok login_ok_id1 login_ok_id2 =
    0x03
    ∷ (u32 login_ok_id1 ++ u32 login_ok_id2 ++ replicate 8 0 ++ le_bytes 4 0x3ea ++ replicate 28 0)

unfoldable pub play_fail : ℕ → List ℕ
play_fail reason = 0x06 ∷ reason ∷ []

unfoldable pub play_ok : ℤ → ℤ → List ℕ
play_ok play_ok_id1 play_ok_id2 = 0x07 ∷ (u32 play_ok_id1 ++ u32 play_ok_id2)

-- `ip` is what `net.IP.To4` gives: four bytes, or nothing.
pub record ServerInfo : Type 0 where
  pub id : ℕ
  pub ip : Option (List ℕ)
  pub port : ℤ
  pub age_limit : ℕ
  pub pvp : Bool
  pub current_players : ℤ
  pub max_players : ℤ
  pub status : ℕ
  pub server_type : ℤ
  pub brackets : Bool
  pub char_count : ℕ

unfoldable pub ip_bytes : Option (List ℕ) → List ℕ
ip_bytes none = 127 ∷ 0 ∷ 0 ∷ 1 ∷ []
ip_bytes (some ip) = take 4 ip

unfoldable pub server_entry : ServerInfo → List ℕ
server_entry s =
    s.id
    ∷ (ip_bytes s.ip
        ++ u32 s.port
        ++ (s.age_limit ∷ flag s.pvp ∷ [])
        ++ u16 s.current_players
        ++ u16 s.max_players
        ++ (s.status ∷ [])
        ++ u32 s.server_type
        ++ (flag s.brackets ∷ []))

-- The two loops of `ServerList`.
unfoldable pub server_entries : List ServerInfo → List ℕ
server_entries [] = []
server_entries (s ∷ servers) = server_entry s ++ server_entries servers

unfoldable pub char_entries : List ServerInfo → List ℕ
char_entries [] = []
char_entries (s ∷ servers) = s.id ∷ s.char_count ∷ 0 ∷ char_entries servers

unfoldable pub server_list : List ServerInfo → ℕ → List ℕ
server_list servers last_server =
    0x04
    ∷ (length servers % 256)
    ∷ last_server
    ∷ (server_entries servers ++ (0 ∷ 0 ∷ (length servers % 256) ∷ char_entries servers))
