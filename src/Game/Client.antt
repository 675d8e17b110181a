-- ===== src/Game/Client.antt =====
-- internal/gameserver/client.go and the client states of types.go. The connection, its address and
-- its cipher are left out: the handler only logs the address.
use la2go.Prelude.{Option, none, some, []}
use la2go.Prelude.Int.{ℤ}
use la2go.Login.Session.{SessionKey, Account}

pub data ClientConnectionState : Type 0 where
  client_connected client_authenticated client_entering : ClientConnectionState
  client_in_game client_disconnected : ClientConnectionState

pub record GameClient : Type 0 where
  pub session_id : ℤ
  pub state : ClientConnectionState
  pub account_name : Account
  pub session_key : Option SessionKey

-- `session_id` is the random number drawn for the connection.
unfoldable pub new_game_client : ℤ → GameClient
new_game_client session_id = record {
  session_id = session_id;
  state = client_connected;
  account_name = [];
  session_key = none;
}

-- The three setters after a valid AuthLogin.
unfoldable pub set_authenticated : Account → SessionKey → GameClient → GameClient
set_authenticated account key client = record client {
  account_name = account;
  session_key = some key;
  state = client_authenticated;
}
