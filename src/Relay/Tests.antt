-- ===== src/Relay/Tests.antt =====
-- Runs of the handler of game servers, with a cipher that changes nothing and an RSA decryption that
-- gives the block as it is.
use la2go.Prelude.{
  ℕ, ◌≡◌, ◌≢◌, refl, inl, List, [], ◌∷◌, true, false, none, some, replicate, ok, arith,
}
use la2go.Prelude.Int.{pos}
use la2go.Crypto.Blowfish.{Cipher, CipherFactory, new_blowfish_cipher}
use la2go.Login.Session.{SessionKey, Account, load, store, remove}
use la2go.Login.Session.Laws.{validate-store}
use la2go.Packet.RoundTrip.Text.{IsText}
use la2go.Registry.Info.{new_game_server_info}
use la2go.Registry.Table.{new_game_server_table, put, mark_id_used, register, get_by_id}
use la2go.Registry.Table.Invariant.{Reachable-Consistent, new}
use la2go.Registry.Table.Search.{Consistent}
use la2go.Relay.ClientPackets.{
  GameServerAuth, PlayerAuthRequest, parse_blow_fish_key, parse_game_server_auth,
  read_game_server_auth, parse_player_auth_request,
}
use la2go.Relay.Connection.{
  GsConnection, GsConnectionState, gs_bf_connected, gs_authed, new_gs_connection,
}
use la2go.Packet.Reader.{new_reader, read_byte, read_short, read_word, read_bytes}
use la2go.Bytes.{slice}
use la2go.Relay.ServerPackets.{auth_response}
use la2go.Relay.Handler.{
  Relay, Reply, nothing, handle_packet, handle_blow_fish_key, auth_existing, server_name,
  update_info, registered_info, handle_game_server_auth, auth_game_server, auth_new,
  finalize_registration,
}
use la2go.Relay.Handler.Steps.{GsStep, answer}
use la2go.Relay.Handler.States.{handle_packet-GsStep}
use la2go.Relay.Handler.Network.{
  Network, seat, view, settle, connects, handles, Reachable, here, later, IsExclusive,
}
use la2go.Relay.Handler.Exclusion.{Reachable-IsExclusive}
use la2go.Relay.Handler.Races.{auth_existing_race}
use la2go.Relay.Handler.Sessions.{
  auth_request_bytes, IsKey, parse-auth_request_bytes, auth_request_once, auth_request-store,
}

abbrev plain : Cipher
plain = record { encrypt_block = λ b. b; decrypt_block = λ b. b }

abbrev keys : CipherFactory
keys key = some plain

abbrev fresh : GsConnection
fresh = record {
  state = GsConnectionState.gs_connected;
  blowfish_cipher = plain;
  info = none;
  accounts = [];
}

abbrev keyed : GsConnection
keyed = record fresh { state = gs_bf_connected }

abbrev empty : Network
empty = record { conns = λ n. none; gs_table = new_game_server_table; session_manager = [] }

abbrev key_packet : List ℕ
key_packet = 0 ∷ replicate 64 7

key_run : handle_packet some keys key_packet (view empty fresh) ≡ ok (nothing, view empty keyed)
unfolding handle_packet handle_blow_fish_key parse_blow_fish_key new_blowfish_cipher
key_run = refl

new-Consistent : Consistent new_game_server_table
new-Consistent = Reachable-Consistent new_game_server_table new

abbrev hex : List ℕ
hex = replicate 32 1

-- Id 9, no other id wanted, 50 players, port 7777, no hosts.
abbrev auth_packet : List ℕ
auth_packet = 1 ∷ 9 ∷ 0 ∷ 0 ∷ 50 ∷ 0 ∷ 97 ∷ 30 ∷ 0 ∷ hex

abbrev auth : GameServerAuth
auth = record {
  id = 9;
  accept_alternate = false;
  port = pos 7777;
  max_players = pos 50;
  hex_id = hex;
  hosts = [];
}

abbrev registered : Relay
registered = record {
  conn = (record keyed { state = gs_authed; info = some 9 });
  gs_table =
      update_info 9 (registered_info auth)
        (mark_id_used 9 (put 9 (some (new_game_server_info 9 hex)) new_game_server_table));
  session_manager = [];
}

abbrev welcome : Reply
welcome = record { packet = auth_response 9 (server_name 9); keep = true }

auth_run : handle_packet some keys auth_packet (view empty keyed) ≡ ok (welcome, registered)
unfolding handle_packet handle_game_server_auth parse_game_server_auth read_game_server_auth
    new_reader read_byte read_short read_word read_bytes slice auth_game_server auth_new register
    get_by_id new_game_server_table finalize_registration
auth_run = refl

handle_packet-GsStep_example : GsStep some keys auth_packet (view empty keyed) welcome registered
handle_packet-GsStep_example =
    handle_packet-GsStep some keys auth_packet (view empty keyed) registered welcome new-Consistent
      auth_run

empty-IsExclusive : IsExclusive empty
empty-IsExclusive = record {
  consistent = new-Consistent;
  holds = λ n conn e. cc;
  apart = λ m n a b i j d e. cc;
}

abbrev one : Network
one = record empty { conns = seat 4 (some fresh) empty.conns }

abbrev one_keyed : Network
one_keyed = settle 4 (some keyed) (view empty keyed) one

abbrev one_registered : Network
one_registered = settle 4 (some registered.conn) registered one_keyed

run_of_one : Reachable some keys empty one_registered
unfolding new_gs_connection
run_of_one =
    later
      (later (later here (connects 4 plain refl))
        (handles 4 fresh key_packet nothing (view empty keyed) refl key_run refl))
      (handles 4 keyed auth_packet welcome registered refl auth_run refl)

Reachable-IsExclusive_example : IsExclusive one_registered
Reachable-IsExclusive_example =
    Reachable-IsExclusive some keys empty one_registered empty-IsExclusive run_of_one

abbrev anna : Account
anna = 97 ∷ 110 ∷ 110 ∷ 97 ∷ []

abbrev drawn : SessionKey
drawn = record {
  login_ok_id1 = pos 1;
  login_ok_id2 = pos 2;
  play_ok_id1 = pos 3;
  play_ok_id2 = pos 4;
}

anna-IsText : IsText anna
anna-IsText = (
  (omega arith, omega arith, inl (omega arith)),
  (
    (omega arith, omega arith, inl (omega arith)),
    (
      (omega arith, omega arith, inl (omega arith)),
      ((omega arith, omega arith, inl (omega arith)), tt),
    ),
  ),
)

drawn-IsKey : IsKey drawn
drawn-IsKey = (
  (omega arith, omega arith),
  (omega arith, omega arith),
  (omega arith, omega arith),
  (omega arith, omega arith),
)

abbrev playing : Relay
playing = record registered { session_manager = store anna drawn (pos 5) [] }

auth_request-store_example :
    handle_packet some keys (0x05 ∷ auth_request_bytes anna drawn) playing
    ≡ ok
        (answer anna true, record playing { session_manager = remove anna playing.session_manager })
auth_request-store_example =
    auth_request-store some keys anna drawn (pos 5) [] playing anna-IsText drawn-IsKey refl refl

auth_existing_race_example :
    let existing = new_game_server_info 9 hex in
    let first = (auth_existing existing auth (view one_keyed keyed)).1 in
    let second = (auth_existing existing auth (record first { conn = keyed })).1 in
    ¬ IsExclusive (record {
      conns = seat 4 (some first.conn) (seat 5 (some second.conn) one_keyed.conns);
      gs_table = second.gs_table;
      session_manager = second.session_manager;
    })
unfolding new_game_server_info
auth_existing_race_example =
    auth_existing_race (new_game_server_info 9 hex) auth one_keyed 4 5 keyed keyed
      (λ e. omega arith) refl refl

abbrev request : PlayerAuthRequest
request = record { account = anna; session_key = drawn }

parsed : parse_player_auth_request (auth_request_bytes anna drawn) ≡ ok request
parsed = parse-auth_request_bytes anna drawn anna-IsText drawn-IsKey

auth_request_once_example :
    let after = remove anna playing.session_manager in
    let st' = record playing { session_manager = after } in
    (handle_packet some keys (0x05 ∷ auth_request_bytes anna drawn) playing
      ≡ ok (answer anna true, st'))
    × (handle_packet some keys (0x05 ∷ auth_request_bytes anna drawn) st'
        ≡ ok (answer anna false, st'))
    × ((other : Account) → other ≢ anna → load other after ≡ load other playing.session_manager)
auth_request_once_example =
    auth_request_once some keys (auth_request_bytes anna drawn) (auth_request_bytes anna drawn)
      request request playing registered.conn refl refl parsed parsed refl
      (validate-store anna drawn (pos 5) false [])
