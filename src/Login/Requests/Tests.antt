-- ===== src/Login/Requests/Tests.antt =====
-- Runs of the requests and of the replies to them.
use la2go.Prelude.{
  ℕ, ◌≡◌, refl, List, [], ◌∷◌, ◌++◌, true, ok, err, request_refused, replicate, arith,
}
use la2go.Prelude.Int.{pos, negsuc}
use la2go.Crypto.Encryption.Sealing.{replicate-IsBytes}
use la2go.Crypto.Tests.{shift_cipher-IsBlockCipher, new_connection}
use la2go.Wire.Protocol.{read_packet}
use la2go.Login.Client.{new_client, state_authed_gg, is_state}
use la2go.Login.ServerPackets.{gg_auth, login_ok, play_ok, login_fail, play_fail}
use la2go.Login.Replies.{parse_login_ok, parse_play_ok, parse_fail, parse_login_ok-login_ok}
use la2go.Login.Handler.{Server}
use la2go.Login.Handler.Auth.{handle_packet}
use la2go.Login.Requests.{send_request, auth_game_guard}
use la2go.Login.Requests.Handled.{handle_packet-send_request}
use la2go.Login.Tests.{one_account, plain, config, drawn}

abbrev connected : Server (Unit {0})
connected = record { client = new_client [] (negsuc 4); session_manager = []; accounts = tt }

handle_packet-send_request_example :
    (sent : List ℕ) × (received : List ℕ) × (send_request new_connection
        (auth_game_guard (negsuc 4))
        (replicate 40 0)
      ≡ ok sent)
    × (read_packet new_connection 4096 (sent ++ []) ≡ ok (received, []))
    × (handle_packet one_account plain config drawn (pos 0) received connected
        ≡ ok (
          record { packet = gg_auth (negsuc 4); keep = true },
          record connected { client = record connected.client { state = state_authed_gg } },
        ))
handle_packet-send_request_example =
    handle_packet-send_request one_account plain config drawn (pos 0) connected new_connection
      (negsuc 4) (replicate 40 0) 4096 [] shift_cipher-IsBlockCipher (omega arith, omega arith)
      (unfold new_client in refl) (unfold new_client is_state in refl) (replicate-IsBytes 40)
      (omega arith) (omega arith)

parse_login_ok-login_ok_example :
    (parse_login_ok (login_ok (negsuc 4) (pos 9) ++ (0 ∷ [])) ≡ ok (negsuc 4, pos 9))
    × (parse_play_ok (play_ok (negsuc 4) (pos 9) ++ (0 ∷ [])) ≡ ok (negsuc 4, pos 9))
    × (parse_login_ok (login_fail 3 ++ (0 ∷ [])) ≡ err request_refused)
    × (parse_play_ok (play_fail 3 ++ (0 ∷ [])) ≡ err request_refused)
    × (parse_fail 0x01 (login_fail 3 ++ (0 ∷ [])) ≡ ok 3)
    × (parse_fail 0x06 (play_fail 3 ++ (0 ∷ [])) ≡ ok 3)
parse_login_ok-login_ok_example =
    parse_login_ok-login_ok (negsuc 4) (pos 9) 3 (0 ∷ []) (omega arith, omega arith)
      (omega arith, omega arith)
