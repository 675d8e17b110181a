-- ===== src/Game/Handler.antt =====
-- internal/gameserver/handler.go, and the loop of handleConnection in server.go. No handler writes a
-- response, so that the buffer for it is left out.
pub mod States
pub mod Accepted
use la2go.Prelude.{
  ℕ, List, [], ◌∷◌, Bool, true, false, ◌==◌, if◌then◌else◌, Result, ok, err, panic, guard, ◌>>=◌,
  ◌>>◌, empty_packet, invalid_state, invalid_revision, invalid_session,
}
use la2go.Login.Session.{SessionManager, validate}
use la2go.Game.Client.{
  ClientConnectionState, GameClient, client_connected, client_authenticated, client_entering,
  client_in_game, client_disconnected, set_authenticated,
}
use la2go.Game.Packets.{parse_protocol_version, is_valid_revision, parse_auth_login}

-- The bytes written for the response, whether the connection stays open, and the client.
pub record Outcome : Type 0 where
  pub written : ℕ
  pub keep : Bool
  pub client : GameClient

abbrev pub stay : GameClient → Outcome
stay client = record { written = 0; keep = true; client = client }

abbrev pub close : GameClient → Outcome
close client = record { written = 0; keep = false; client = client }

unfoldable pub handle_protocol_version : GameClient → List ℕ → Result Outcome
handle_protocol_version client body = do
  revision ← parse_protocol_version body
  guard (is_valid_revision revision) invalid_revision
  ok (stay client)

unfoldable pub handle_auth_login : SessionManager → GameClient → List ℕ → Result Outcome
handle_auth_login sm client body = do
  pkt ← parse_auth_login body
  guard (validate pkt.account_name pkt.session_key false sm) invalid_session
  ok (stay (set_authenticated pkt.account_name pkt.session_key client))

unfoldable pub dispatch_by_state :
    SessionManager → GameClient → ClientConnectionState → ℕ → List ℕ → Result Outcome
dispatch_by_state sm client client_connected opcode body =
    if opcode == 0x0E then handle_protocol_version client body else ok (close client)
dispatch_by_state sm client client_authenticated opcode body =
    if opcode == 0x08 then handle_auth_login sm client body else ok (stay client)
dispatch_by_state sm client client_entering opcode body =
    if opcode == 0x08 then handle_auth_login sm client body else ok (stay client)
dispatch_by_state sm client client_in_game opcode body =
    if opcode == 0x08 then handle_auth_login sm client body else ok (stay client)
dispatch_by_state sm client client_disconnected opcode body = err invalid_state

unfoldable pub handle_packet : SessionManager → GameClient → List ℕ → Result Outcome
handle_packet sm client [] = err empty_packet
handle_packet sm client (opcode ∷ body) = dispatch_by_state sm client client.state opcode body

-- The loop over the packets of one connection, each with the sessions as they are when it is
-- handled. The connection ends with its packets, with an error, or when the handler wants it closed.
unfoldable pub serve : GameClient → List (SessionManager × List ℕ) → GameClient
serve client [] = client
serve client ((sm, packet) ∷ packets) = elim (handle_packet sm client packet) [
  | ok outcome ↦
      (let rest = serve outcome.client packets in if outcome.keep then rest else outcome.client)
  | err e ↦ client
  | panic ↦ client
]
