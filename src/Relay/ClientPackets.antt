-- ===== src/Relay/ClientPackets.antt =====
-- internal/gslistener/clientpackets: what a game server sends, parsed by the packet reader.
use la2go.Prelude.{
  ℕ, zero, suc, List, [], ◌∷◌, Bool, not, if◌then◌else◌, length, take, ltb, ◌==◌, Result, ok, err,
  packet_too_short, invalid_count,
}
use la2go.Prelude.Int.{ℤ, pos, negsuc}
use la2go.Packet.Reader.{
  Read, ◌>>=◌, pure, fail, run, read_byte, read_short, read_int, read_string, read_bytes,
}
use la2go.Login.Session.{SessionKey, Account}

unfoldable pub parse_blow_fish_key : List ℕ → Result (List ℕ)
parse_blow_fish_key body = if ltb (length body) 64 then err packet_too_short else ok (take 64 body)

-- The hosts are never read from the packet, so they stay empty.
pub record GameServerAuth : Type 0 where
  pub id : ℕ
  pub accept_alternate : Bool
  pub port : ℤ
  pub max_players : ℤ
  pub hex_id : List ℕ
  pub hosts : List (List ℕ)

unfoldable pub read_game_server_auth : Read GameServerAuth
read_game_server_auth = do
  id ← read_byte
  accept_alt ← read_byte
  reserved ← read_byte
  max_players ← read_short
  port ← read_short
  game_hosts ← read_byte
  hex_id ← read_bytes (pos 32)
  pure (record {
    id = id;
    accept_alternate = not (accept_alt == 0);
    port = port;
    max_players = max_players;
    hex_id = hex_id;
    hosts = [];
  })

unfoldable pub parse_game_server_auth : List ℕ → Result GameServerAuth
parse_game_server_auth body = run read_game_server_auth body

pub record PlayerAuthRequest : Type 0 where
  pub account : Account
  pub session_key : SessionKey

unfoldable pub read_player_auth_request : Read PlayerAuthRequest
read_player_auth_request = do
  account ← read_string
  play_ok_id1 ← read_int
  play_ok_id2 ← read_int
  login_ok_id1 ← read_int
  login_ok_id2 ← read_int
  pure (record {
    account = account;
    session_key = (record {
      login_ok_id1 = login_ok_id1;
      login_ok_id2 = login_ok_id2;
      play_ok_id1 = play_ok_id1;
      play_ok_id2 = play_ok_id2;
    });
  })

unfoldable pub parse_player_auth_request : List ℕ → Result PlayerAuthRequest
parse_player_auth_request body = run read_player_auth_request body

-- `for range count`
unfoldable pub read_accounts : ℕ → Read (List Account)
read_accounts zero = pure []
read_accounts (suc count) =
    read_string >>= λ account. read_accounts count >>= λ accounts. pure (account ∷ accounts)

unfoldable pub read_player_in_game : Read (List Account)
read_player_in_game = read_short >>= λ count. elim count [
  | negsuc n ↦ fail invalid_count
  | pos n ↦ if ltb 10000 n then fail invalid_count else read_accounts n
]

unfoldable pub parse_player_in_game : List ℕ → Result (List Account)
parse_player_in_game body = run read_player_in_game body

unfoldable pub parse_player_logout : List ℕ → Result Account
parse_player_logout body = run read_string body

pub record Attribute : Type 0 where
  pub id : ℤ
  pub value : ℤ

unfoldable pub read_attributes : ℕ → Read (List Attribute)
read_attributes zero = pure []
read_attributes (suc count) = read_int >>= λ id. read_int >>= λ value.
    read_attributes count >>= λ attributes. pure (record { id = id; value = value } ∷ attributes)

unfoldable pub read_server_status : Read (List Attribute)
read_server_status = read_int >>= λ count. elim count [
  | negsuc n ↦ fail invalid_count
  | pos n ↦ if ltb 100 n then fail invalid_count else read_attributes n
]

unfoldable pub parse_server_status : List ℕ → Result (List Attribute)
parse_server_status body = run read_server_status body
