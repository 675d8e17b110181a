-- ===== src/Game/Tests.antt =====
-- Runs of the handler of game clients.
use la2go.Prelude.{[], ◌∷◌, ◌≡◌, refl, ok, err, invalid_session, none, arith}
use la2go.Prelude.Int.{pos}
use la2go.Packet.RoundTrip.Text.{IsText}
use la2go.Packet.Writer.{new_writer, write_byte, write_bytes}
use la2go.Login.Session.{SessionKey, SessionManager, Account, store, remove}
use la2go.Relay.Handler.Sessions.{IsKey}
use la2go.Game.Client.{GameClient, client_entering, set_authenticated, new_game_client}
use la2go.Game.Packets.{write_key_packet, parse_auth_login}
use la2go.Game.Handler.{handle_packet, handle_auth_login, dispatch_by_state, serve, stay, close}
use la2go.Game.Handler.States.{IsClientStep, handle_packet-IsClientStep, serve-new_game_client}
use la2go.Game.Handler.Accepted.{auth_login_bytes, auth_login-store}

abbrev berta : Account
berta = 98 ∷ 101 ∷ 114 ∷ 116 ∷ 97 ∷ []

abbrev agreed : SessionKey
agreed = record {
  login_ok_id1 = pos 11;
  login_ok_id2 = pos 12;
  play_ok_id1 = pos 13;
  play_ok_id2 = pos 14;
}

abbrev sessions : SessionManager
sessions = store berta agreed (pos 5) []

abbrev newly : GameClient
newly = new_game_client (pos 7)

abbrev entering : GameClient
entering = record {
  session_id = pos 7;
  state = client_entering;
  account_name = berta;
  session_key = none;
}

berta-IsText : IsText berta
berta-IsText = ground arith

agreed-IsKey : IsKey agreed
agreed-IsKey = ground arith

key_packet_test : write_key_packet (1 ∷ 2 ∷ []) ≡ (0x2E ∷ 0x01 ∷ 1 ∷ 2 ∷ [])
unfolding write_key_packet write_bytes write_byte new_writer
key_packet_test = refl

auth_login-store_example :
    (parse_auth_login (auth_login_bytes berta agreed)
      ≡ ok (record { account_name = berta; session_key = agreed }))
    × (handle_auth_login sessions newly (auth_login_bytes berta agreed)
        ≡ ok (stay (set_authenticated berta agreed newly)))
    × (handle_auth_login (remove berta sessions) newly (auth_login_bytes berta agreed)
        ≡ err invalid_session)
    × (handle_packet sessions newly (0x08 ∷ auth_login_bytes berta agreed) ≡ ok (close newly))
auth_login-store_example =
    auth_login-store berta agreed (pos 5) (pos 7) [] newly berta-IsText agreed-IsKey

accepted :
    handle_packet sessions entering (0x08 ∷ auth_login_bytes berta agreed)
    ≡ ok (stay (set_authenticated berta agreed entering))
unfolding handle_packet dispatch_by_state
accepted =
    let (_, handled, _, _) =
      auth_login-store berta agreed (pos 5) (pos 7) [] entering berta-IsText agreed-IsKey in
    handled

handle_packet-IsClientStep_example :
    IsClientStep sessions entering
      (auth_login_bytes berta agreed)
      (set_authenticated berta agreed entering)
handle_packet-IsClientStep_example =
    handle_packet-IsClientStep sessions entering 0x08 (auth_login_bytes berta agreed)
      (stay (set_authenticated berta agreed entering)) accepted

serve-new_game_client_example :
    serve newly (
      (sessions, 0x0E ∷ 0x06 ∷ 0x01 ∷ 0 ∷ 0 ∷ [])
      ∷ (sessions, 0x08 ∷ auth_login_bytes berta agreed)
      ∷ [])
    ≡ newly
serve-new_game_client_example = serve-new_game_client (pos 7) (
    (sessions, 0x0E ∷ 0x06 ∷ 0x01 ∷ 0 ∷ 0 ∷ [])
    ∷ (sessions, 0x08 ∷ auth_login_bytes berta agreed)
    ∷ [])
