-- ===== src/Registry/Info.antt =====
-- internal/gameserver/info.go. The getters are the fields; the locks make each setter one step.
use la2go.Prelude.{ℕ, List, [], Bool, false}
use la2go.Prelude.Int.{ℤ, pos}

pub record GameServerInfo : Type 0 where
  pub id : ℕ
  pub hex_id : List ℕ
  pub port : ℤ
  pub max_players : ℤ
  pub status : ℤ
  pub server_type : ℤ
  pub age_limit : ℤ
  pub hosts : List (List ℕ)
  pub is_authed : Bool
  pub showing_brackets : Bool

unfoldable pub new_game_server_info : ℕ → List ℕ → GameServerInfo
new_game_server_info id hex_id = record {
  id = id;
  hex_id = hex_id;
  port = pos 0;
  max_players = pos 0;
  status = pos 0;
  server_type = pos 0;
  age_limit = pos 0;
  hosts = [];
  is_authed = false;
  showing_brackets = false;
}

unfoldable pub set_id : ℕ → GameServerInfo → GameServerInfo
set_id id info = record info { id = id }

unfoldable pub set_authed : Bool → GameServerInfo → GameServerInfo
set_authed authed info = record info { is_authed = authed }

unfoldable pub set_port : ℤ → GameServerInfo → GameServerInfo
set_port port info = record info { port = port }

unfoldable pub set_max_players : ℤ → GameServerInfo → GameServerInfo
set_max_players max info = record info { max_players = max }

unfoldable pub set_status : ℤ → GameServerInfo → GameServerInfo
set_status status info = record info { status = status }

unfoldable pub set_server_type : ℤ → GameServerInfo → GameServerInfo
set_server_type server_type info = record info { server_type = server_type }

unfoldable pub set_age_limit : ℤ → GameServerInfo → GameServerInfo
set_age_limit age_limit info = record info { age_limit = age_limit }

unfoldable pub set_hosts : List (List ℕ) → GameServerInfo → GameServerInfo
set_hosts hosts info = record info { hosts = hosts }

unfoldable pub set_showing_brackets : Bool → GameServerInfo → GameServerInfo
set_showing_brackets show info = record info { showing_brackets = show }

-- `StatusDown` is 4.
unfoldable pub set_down : GameServerInfo → GameServerInfo
set_down info = record info { is_authed = false; port = pos 0; status = pos 4 }
