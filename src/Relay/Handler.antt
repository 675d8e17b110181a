-- ===== src/Relay/Handler.antt =====
-- internal/gslistener/handler.go. RSA decryption and the construction of a cipher are parameters.
-- An error ends the connection, and no handler has changed anything by then.
pub mod Table
pub mod Accounts
pub mod Steps
pub mod Registering
pub mod Sessions
pub mod States
pub mod Network
pub mod Isolation
pub mod Exclusion
pub mod Races
use la2go.Prelude.{
  ℕ, zero, suc, ◌+◌, ◌-◌, ◌/◌, ◌%◌, List, [], ◌∷◌, ◌++◌, Bool, true, false, not, if◌then◌else◌,
  Option, none, some, length, drop, ltb, ◌==◌, same, Result, ok, err, panic, ◌>>=◌, empty_packet,
  invalid_opcode, rsa_failed, packet_too_short, not_authenticated,
}
use la2go.Prelude.Int.{ℤ, pos, negsuc, eq_ℤ}
use la2go.Crypto.Blowfish.{Cipher, CipherFactory, new_blowfish_cipher}
use la2go.Login.Session.{SessionManager, validate, remove}
use la2go.Registry.Info.{
  GameServerInfo, new_game_server_info, set_authed, set_port, set_max_players, set_status,
  set_server_type, set_age_limit, set_hosts, set_showing_brackets, set_down,
}
use la2go.Registry.Table.{
  GameServerTable, get_by_id, register, register_with_first_available_id, put,
}
use la2go.Relay.ClientPackets.{
  GameServerAuth, Attribute, parse_blow_fish_key, parse_game_server_auth, parse_player_auth_request,
  parse_player_in_game, parse_player_logout, parse_server_status,
}
use la2go.Relay.ServerPackets.{auth_response, login_server_fail, player_auth_response}
use la2go.Relay.Connection.{
  GsConnection, GsConnectionState, gs_connected, gs_bf_connected, gs_authed, add_accounts,
  remove_account,
}

pub record Relay : Type 0 where
  pub conn : GsConnection
  pub gs_table : GameServerTable
  pub session_manager : SessionManager

pub record Reply : Type 0 where
  pub packet : List ℕ
  pub keep : Bool

abbrev pub nothing : Reply
nothing = record { packet = []; keep = true }

abbrev pub refuse : ℕ → Reply
refuse reason = record { packet = login_server_fail reason; keep = false }

-- `rsa_decrypt` uses the key of the connection.
unfoldable pub handle_blow_fish_key :
    (List ℕ → Option (List ℕ)) → CipherFactory → List ℕ → Relay → Result (Reply × Relay)
handle_blow_fish_key rsa_decrypt new_cipher body st = parse_blow_fish_key body >>= λ encrypted_key.
    elim (rsa_decrypt encrypted_key) [
      | none ↦ err rsa_failed
      | some block ↦
          if ltb (length block) 40
          then err packet_too_short
          else (new_blowfish_cipher new_cipher (drop (length block - 40) block) >>= λ cipher. ok (
            nothing,
            record st {
              conn = (record st.conn { blowfish_cipher = cipher; state = gs_bf_connected });
            },
          ))
    ]

-- A change of the info that the table holds under an id.
unfoldable pub update_info :
    ℕ → (GameServerInfo → GameServerInfo) → GameServerTable → GameServerTable
update_info id change t = elim (get_by_id id t) [
  | none ↦ t
  | some info ↦ put id (some (change info)) t
]

-- `fmt.Sprintf("Server %d", id)`, for ids below 1000.
unfoldable pub decimal : ℕ → List ℕ
decimal n =
    if ltb n 10
    then (48 + n) ∷ []
    else if ltb n 100
    then (48 + n / 10) ∷ (48 + n % 10) ∷ []
    else (48 + n / 100) ∷ (48 + n / 10 % 10) ∷ (48 + n % 10) ∷ []

unfoldable pub server_name : ℕ → List ℕ
server_name id = 83 ∷ 101 ∷ 114 ∷ 118 ∷ 101 ∷ 114 ∷ 32 ∷ decimal id

unfoldable pub registered_info : GameServerAuth → GameServerInfo → GameServerInfo
registered_info pkt info =
    set_authed true (set_hosts pkt.hosts (set_max_players pkt.max_players (set_port pkt.port info)))

-- `id` is the one that the table and the info have.
unfoldable pub finalize_registration : ℕ → GameServerAuth → Relay → Reply × Relay
finalize_registration id pkt st = (
  record { packet = auth_response (id % 256) (server_name id); keep = true },
  record st {
    conn = (record st.conn { info = some id; state = gs_authed });
    gs_table = update_info id (registered_info pkt) st.gs_table;
  },
)

-- An id that the table has: the same game server, a second one that takes another id, or a refusal.
unfoldable pub auth_existing : GameServerInfo → GameServerAuth → Relay → Reply × Relay
auth_existing existing pkt st =
    if same existing.hex_id pkt.hex_id
    then (if existing.is_authed then (refuse 7, st) else finalize_registration pkt.id pkt st)
    else if pkt.accept_alternate
    then (let (id, t) =
          (register_with_first_available_id (new_game_server_info 0 pkt.hex_id) 127 st.gs_table) in
        if id == 0
        then (refuse 5, record st { gs_table = t })
        else finalize_registration id pkt (record st { gs_table = t }))
    else (refuse 3, st)

unfoldable pub auth_new : GameServerAuth → Relay → Reply × Relay
auth_new pkt st =
    let (done, t) = register pkt.id (new_game_server_info pkt.id pkt.hex_id) st.gs_table in
    if not done
    then (refuse 4, record st { gs_table = t })
    else finalize_registration pkt.id pkt (record st { gs_table = t })

unfoldable pub auth_game_server : GameServerAuth → Relay → Reply × Relay
auth_game_server pkt st = elim (get_by_id pkt.id st.gs_table) [
  | some existing ↦ auth_existing existing pkt st
  | none ↦ auth_new pkt st
]

unfoldable pub handle_game_server_auth : List ℕ → Relay → Result (Reply × Relay)
handle_game_server_auth body st =
    parse_game_server_auth body >>= λ pkt. ok (auth_game_server pkt st)

unfoldable pub handle_player_in_game : List ℕ → Relay → Result (Reply × Relay)
handle_player_in_game body st = parse_player_in_game body >>= λ accounts.
    ok (nothing, record st { conn = add_accounts accounts st.conn })

unfoldable pub handle_player_logout : List ℕ → Relay → Result (Reply × Relay)
handle_player_logout body st = parse_player_logout body >>= λ account.
    ok (nothing, record st { conn = remove_account account st.conn })

unfoldable pub handle_player_auth_request : List ℕ → Relay → Result (Reply × Relay)
handle_player_auth_request body st = parse_player_auth_request body >>= λ pkt.
    (let valid = validate pkt.account pkt.session_key false st.session_manager in
      ok (
        record { packet = player_auth_response pkt.account valid; keep = true },
        record st {
          session_manager =
              (if valid then remove pkt.account st.session_manager else st.session_manager);
        },
      ))

-- The switch of `handleServerStatus`; other ids are only logged.
unfoldable pub set_attribute : Attribute → GameServerInfo → GameServerInfo
set_attribute attr info =
    if eq_ℤ attr.id (pos 0)
    then set_showing_brackets (not (eq_ℤ attr.value (pos 0))) info
    else if eq_ℤ attr.id (pos 1)
    then set_server_type attr.value info
    else if eq_ℤ attr.id (pos 2)
    then set_status attr.value info
    else if eq_ℤ attr.id (pos 3)
    then set_age_limit attr.value info
    else if eq_ℤ attr.id (pos 4)
    then set_max_players attr.value info
    else info

unfoldable pub set_attributes : List Attribute → GameServerInfo → GameServerInfo
set_attributes [] info = info
set_attributes (attr ∷ attributes) info = set_attributes attributes (set_attribute attr info)

unfoldable pub handle_server_status : List ℕ → Relay → Result (Reply × Relay)
handle_server_status body st = parse_server_status body >>= λ attributes. elim st.conn.info [
  | none ↦ err not_authenticated
  | some id ↦
      ok (nothing, record st { gs_table = update_info id (set_attributes attributes) st.gs_table })
]

unfoldable pub handle_authed : ℕ → List ℕ → Relay → Result (Reply × Relay)
handle_authed opcode body st =
    if opcode == 0x02
    then handle_player_in_game body st
    else if opcode == 0x03
    then handle_player_logout body st
    else if opcode == 0x05
    then handle_player_auth_request body st
    else if opcode == 0x06
    then handle_server_status body st
    else err invalid_opcode

unfoldable pub handle_packet :
    (List ℕ → Option (List ℕ)) → CipherFactory → List ℕ → Relay → Result (Reply × Relay)
handle_packet rsa_decrypt new_cipher [] st = err empty_packet
handle_packet rsa_decrypt new_cipher (opcode ∷ body) st = elim st.conn.state [
  | gs_connected ↦
      if opcode == 0x00
      then handle_blow_fish_key rsa_decrypt new_cipher body st
      else err invalid_opcode
  | gs_bf_connected ↦ if opcode == 0x01 then handle_game_server_auth body st else err invalid_opcode
  | gs_authed ↦ handle_authed opcode body st
]

-- `cleanup`, when the connection ends.
unfoldable pub cleanup : Relay → Relay
cleanup st = elim st.conn.info [
  | none ↦ st
  | some id ↦ record st { gs_table = update_info id set_down st.gs_table }
]
