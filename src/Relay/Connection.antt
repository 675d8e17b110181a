-- ===== src/Relay/Connection.antt =====
-- internal/gslistener/connection.go, with the state of internal/gameserver/types.go. The pointer to
-- the info of the game server is the id under which the table holds it: nothing takes an entry out
-- of the table while the login server runs. The accounts are a list without repetition.
use la2go.Prelude.{ℕ, List, [], ◌∷◌, Bool, true, false, if◌then◌else◌, Option, none, same}
use la2go.Crypto.Blowfish.{Cipher}
use la2go.Login.Session.{Account}

pub data GsConnectionState : Type 0 where
  gs_connected gs_bf_connected gs_authed : GsConnectionState

pub record GsConnection : Type 0 where
  pub state : GsConnectionState
  pub blowfish_cipher : Cipher
  pub info : Option ℕ
  pub accounts : List Account

-- `cipher` is the one under the default key.
unfoldable pub new_gs_connection : Cipher → GsConnection
new_gs_connection cipher = record {
  state = gs_connected;
  blowfish_cipher = cipher;
  info = none;
  accounts = [];
}

unfoldable pub member : Account → List Account → Bool
member account [] = false
member account (a ∷ accounts) = if same a account then true else member account accounts

unfoldable pub without : Account → List Account → List Account
without account [] = []
without account (a ∷ accounts) =
    let rest = without account accounts in if same a account then rest else a ∷ rest

unfoldable pub has_account : Account → GsConnection → Bool
has_account account conn = member account conn.accounts

unfoldable pub add_account : Account → GsConnection → GsConnection
add_account account conn =
    if has_account account conn then conn else record conn { accounts = account ∷ conn.accounts }

unfoldable pub remove_account : Account → GsConnection → GsConnection
remove_account account conn = record conn { accounts = without account conn.accounts }

unfoldable pub add_accounts : List Account → GsConnection → GsConnection
add_accounts [] conn = conn
add_accounts (account ∷ accounts) conn = add_accounts accounts (add_account account conn)
