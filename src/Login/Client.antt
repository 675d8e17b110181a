-- ===== src/Login/Client.antt =====
-- internal/login/state.go and client.go: one client connection, and the part of the configuration
-- (internal/config) that the handler reads.
use la2go.Prelude.{ℕ, List, [], Bool, true, false}
use la2go.Prelude.Int.{ℤ, pos}
use la2go.Login.Session.{SessionKey, Account}

pub data ConnectionState : Type 0 where
  state_connected state_authed_gg state_authed_login : ConnectionState

pub record Client : Type 0 where
  pub ip : List ℕ
  pub session_id : ℤ
  pub state : ConnectionState
  pub session_key : SessionKey
  pub account : Account

abbrev pub zero_key : SessionKey
zero_key = record {
  login_ok_id1 = pos 0;
  login_ok_id2 = pos 0;
  play_ok_id1 = pos 0;
  play_ok_id2 = pos 0;
}

-- `session_id` is the random number drawn for the connection.
unfoldable pub new_client : List ℕ → ℤ → Client
new_client ip session_id = record {
  ip = ip;
  session_id = session_id;
  state = state_connected;
  session_key = zero_key;
  account = [];
}

unfoldable pub is_state : ConnectionState → ConnectionState → Bool
is_state state_connected state_connected = true
is_state state_connected state_authed_gg = false
is_state state_connected state_authed_login = false
is_state state_authed_gg state_connected = false
is_state state_authed_gg state_authed_gg = true
is_state state_authed_gg state_authed_login = false
is_state state_authed_login state_connected = false
is_state state_authed_login state_authed_gg = false
is_state state_authed_login state_authed_login = true

pub record GameServerEntry : Type 0 where
  pub id : ℤ
  pub host : List ℕ
  pub port : ℤ

pub record Config : Type 0 where
  pub game_servers : List GameServerEntry
  pub auto_create_accounts : Bool
  pub show_licence : Bool
