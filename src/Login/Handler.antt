-- ===== src/Login/Handler.antt =====
-- internal/login/handler.go and repository.go.
-- The repository keeps its accounts in a state of type S. A failed call is `none`; the error of
-- `UpdateLastLogin` is only logged. The buffer for replies is taken to have room for them.
pub mod Auth
pub mod Steps
pub mod Queries
pub mod States
use la2go.Prelude.{
  ℕ, ◌+◌, ◌^◌, List, [], ◌∷◌, ◌++◌, Bool, true, false, not, ◌&&◌, ◌||◌, if◌then◌else◌, Option, none,
  some, length, take, drop, ltb, leb, ◌==◌, Result, ok, err, panic, packet_too_short, empty_packet,
  map,
}
use la2go.Prelude.Int.{ℤ, pos, negsuc, int32, word, eq_ℤ, ltb_ℤ}
use la2go.Bytes.{slice, word_at}
use la2go.Login.Session.{SessionKey, SessionManager, Account, check_login_pair, store}
use la2go.Login.ServerPackets.{
  ServerInfo, account_kicked, gg_auth, login_fail, login_ok, play_fail, play_ok, server_list,
}
use la2go.Login.Client.{
  Client, ConnectionState, state_connected, state_authed_gg, state_authed_login, is_state, Config,
  GameServerEntry,
}

pub record AccountRow : Type 0 where
  pub login : Account
  pub password_hash : List ℕ
  pub access_level : ℤ

pub record AccountRepository (S : Type 0) : Type 0 where
  pub get_account : S → Account → Option (Option AccountRow)
  pub get_or_create_account : S → Account → List ℕ → List ℕ → Option AccountRow × S
  pub update_last_login : S → Account → List ℕ → S

-- What the handler calls outside of the package: RSA decryption by the key of the client,
-- `net.ParseIP(host).To4()`, the hash of passwords, and the Unicode functions of `strings`.
pub record Env : Type 0 where
  pub rsa_decrypt : List ℕ → Option (List ℕ)
  pub parse_ip : List ℕ → Option (List ℕ)
  pub hash_password : List ℕ → List ℕ
  pub trim_space : List ℕ → List ℕ
  pub to_lower : List ℕ → List ℕ

pub record Server (S : Type 0) : Type 0 where
  pub client : Client
  pub session_manager : SessionManager
  pub accounts : S

-- The packet to send, if any, and whether the connection stays up.
pub record Reply : Type 0 where
  pub packet : List ℕ
  pub keep : Bool

abbrev pub nothing : Reply
nothing = record { packet = []; keep = true }

unfoldable pub close_fail : ℕ → Reply
close_fail reason = record { packet = login_fail reason; keep = false }

abbrev send : List ℕ → Reply
send packet = record { packet = packet; keep = true }

-- `strings.TrimRight(s, "\x00 ")`
unfoldable pub trim_right : List ℕ → List ℕ
trim_right [] = []
trim_right (c ∷ s) =
    let rest = trim_right s in
    elim rest [ [] ↦ if (c == 0) || (c == 0x20) then [] else c ∷ [] | x ∷ xs ↦ c ∷ x ∷ xs ]

unfoldable pub build_server_info : (List ℕ → Option (List ℕ)) → GameServerEntry → ServerInfo
build_server_info parse_ip gs = record {
  id = word 256 gs.id;
  ip = parse_ip gs.host;
  port = int32 (word (2 ^ 32) gs.port);
  age_limit = 0;
  pvp = false;
  current_players = pos 0;
  max_players = pos 1000;
  status = 1;
  server_type = pos 1;
  brackets = false;
  char_count = 0;
}

unfoldable pub build_server_list : (List ℕ → Option (List ℕ)) → List GameServerEntry → List ℕ
build_server_list parse_ip [] = server_list [] 0
build_server_list parse_ip (gs ∷ game_servers) =
    server_list (map (build_server_info parse_ip) (gs ∷ game_servers)) (word 256 gs.id)

unfoldable pub find_server : List GameServerEntry → ℕ → Bool
find_server [] id = false
find_server (gs ∷ game_servers) id = eq_ℤ gs.id (pos id) || find_server game_servers id

module _ {S : Type 0} where
  unfoldable pub handle_auth_game_guard : List ℕ → Server S → Result (Reply × Server S)
  handle_auth_game_guard data_ st =
      if not (is_state st.client.state state_connected)
      then ok (nothing, st)
      else if ltb (length data_) 4
      then err packet_too_short
      else if not (eq_ℤ (int32 (word_at data_ 0)) st.client.session_id)
      then ok (close_fail 0x15, st)
      else ok (
        send (gg_auth st.client.session_id),
        record st { client = record st.client { state = state_authed_gg } },
      )

  unfoldable pub handle_request_server_list :
      Env → Config → List ℕ → Server S → Result (Reply × Server S)
  handle_request_server_list env cfg data_ st =
      if not (is_state st.client.state state_authed_login)
      then ok (nothing, st)
      else if ltb (length data_) 8
      then err packet_too_short
      else if not (
          check_login_pair st.client.session_key (int32 (word_at data_ 0))
            (int32 (word_at data_ 4)))
      then ok (close_fail 0x15, st)
      else ok (send (build_server_list env.parse_ip cfg.game_servers), st)

  unfoldable pub handle_request_server_login :
      Config → List ℕ → Server S → Result (Reply × Server S)
  handle_request_server_login cfg data_ st =
      if not (is_state st.client.state state_authed_login)
      then ok (nothing, st)
      else if ltb (length data_) 9
      then err packet_too_short
      else if (cfg.show_licence
          && not (
              check_login_pair st.client.session_key (int32 (word_at data_ 0))
                (int32 (word_at data_ 4))))
      then ok (close_fail 0x15, st)
      else if not (find_server cfg.game_servers (la2go.Bytes.of_le (slice 8 1 data_)))
      then ok (send (play_fail 0x0f), st)
      else ok
          (send (play_ok st.client.session_key.play_ok_id1 st.client.session_key.play_ok_id2), st)
