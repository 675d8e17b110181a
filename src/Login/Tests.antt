-- ===== src/Login/Tests.antt =====
-- Runs of the login handler on one account, whose password is `secret` and is its own hash. The
-- RSA decryption gives the block as it is.
use la2go.Prelude.{
  ℕ, ◌≡◌, refl, List, [], ◌∷◌, ◌++◌, Bool, true, false, Option, none, some, replicate, same, ok,
}
use la2go.Prelude.Int.{pos}
use la2go.Login.Session.{validate, SessionKey, Account, load, store, store_info, remove}
use la2go.Login.Session.Refinement.{
  run_calls, stores, cleans, promised, promised_valid, run_calls_lem,
}
use la2go.Login.Client.{Config, ConnectionState, state_authed_gg, is_state, zero_key}
use la2go.Bytes.{slice}
use la2go.Login.ServerPackets.{login_ok}
use la2go.Login.Handler.{AccountRow, AccountRepository, Env, Server, trim_right}
use la2go.Login.Handler.Auth.{
  handle_packet, handle_request_auth_login, credentials, authenticate, check_account, find_account,
  login_succeeds,
}
use la2go.Login.Handler.Steps.{Step}
use la2go.Login.Handler.States.{handle_packet-Step}

abbrev secret : List ℕ
secret = 115 ∷ 101 ∷ 99 ∷ 114 ∷ 101 ∷ 116 ∷ []

abbrev anna : Account
anna = 97 ∷ 110 ∷ 110 ∷ 97 ∷ []

abbrev anna_row : AccountRow
anna_row = record { login = anna; password_hash = secret; access_level = pos 0 }

abbrev pub one_account : AccountRepository (Unit {0})
one_account = record {
  get_account = λ s login. some (if_anna (same login anna));
  get_or_create_account = λ s login hash ip. (none, s);
  update_last_login = λ s login ip. s;
}
  where
    if_anna : Bool → Option AccountRow
    if_anna true = some anna_row
    if_anna false = none

abbrev pub plain : Env
plain = record {
  rsa_decrypt = some;
  parse_ip = λ host. none;
  hash_password = λ password. password;
  trim_space = λ s. s;
  to_lower = λ s. s;
}

abbrev pub config : Config
config = record { game_servers = []; auto_create_accounts = false; show_licence = true }

abbrev pub drawn : SessionKey
drawn = record {
  login_ok_id1 = pos 1;
  login_ok_id2 = pos 2;
  play_ok_id1 = pos 3;
  play_ok_id2 = pos 4;
}

abbrev auth_body : List ℕ
auth_body = replicate 94 0 ++ anna ++ replicate 10 0 ++ secret ++ replicate 14 0

abbrev at_game_guard : Server (Unit {0})
at_game_guard = record {
  client = record {
    ip = [];
    session_id = pos 77;
    state = state_authed_gg;
    session_key = zero_key;
    account = [];
  };
  session_manager = [];
  accounts = tt;
}

abbrev logged_in : Server (Unit {0})
logged_in = record {
  client = (record at_game_guard.client {
    state = ConnectionState.state_authed_login;
    session_key = drawn;
    account = anna;
  });
  session_manager = (anna, record { session_key = drawn; created_at = pos 5 }) ∷ [];
  accounts = tt;
}

login_run :
    handle_packet one_account plain config drawn (pos 5) (0 ∷ auth_body) at_game_guard
    ≡ ok (record { packet = login_ok (pos 1) (pos 2); keep = true }, logged_in)
unfolding handle_packet handle_request_auth_login credentials authenticate check_account
    find_account login_succeeds trim_right store store_info remove is_state slice
login_run = refl

handle_packet-Step_example :
    Step one_account plain config drawn (pos 5) (0 ∷ auth_body) at_game_guard logged_in
handle_packet-Step_example =
    handle_packet-Step one_account plain config drawn (pos 5) (0 ∷ auth_body) at_game_guard
      logged_in (record { packet = login_ok (pos 1) (pos 2); keep = true }) login_run

run_calls_lem_example :
    (load anna (run_calls (cleans (pos 9) (pos 5) ∷ stores anna drawn (pos 3) ∷ []))
      ≡ promised (cleans (pos 9) (pos 5) ∷ stores anna drawn (pos 3) ∷ []) anna)
    × (validate anna drawn true
          (run_calls (cleans (pos 9) (pos 5) ∷ stores anna drawn (pos 3) ∷ []))
        ≡ promised_valid (cleans (pos 9) (pos 5) ∷ stores anna drawn (pos 3) ∷ []) anna drawn true)
run_calls_lem_example =
    run_calls_lem (cleans (pos 9) (pos 5) ∷ stores anna drawn (pos 3) ∷ []) anna drawn true
