-- ===== src/Game/Handler/States.antt =====
-- What a packet of a game client can do to the client, and what a connection can reach.
use la2go.Prelude.{
  ℕ, List, [], ◌∷◌, true, false, ◌==◌, ◌≡◌, ◌≢◌, ◌⊎◌, refl, ap, inl, inr, ok, Bool-cases,
  Result-cases, arith, guard-eq-ok, if◌then◌else◌, >>=-eq-ok,
}
use la2go.Prelude.Int.{ℤ}
use la2go.Login.Session.{SessionManager, validate}
use la2go.Game.Client.{
  ClientConnectionState, GameClient, client_connected, client_authenticated, client_entering,
  client_in_game, client_disconnected, set_authenticated, new_game_client,
}
use la2go.Game.Packets.{parse_auth_login, AuthLogin}
use la2go.Game.Handler.{
  Outcome, handle_packet, handle_protocol_version, handle_auth_login, dispatch_by_state, serve,
  stay, close,
}

-- The client after a packet: as before, or, no longer connected alone, authenticated by an AuthLogin
-- whose key fits the session of its account.
abbrev pub IsClientStep : SessionManager → GameClient → List ℕ → GameClient → Type 0
IsClientStep sm client body after =
    (after ≡ client)
    ⊎ ((pkt : AuthLogin) × (client.state ≢ client_connected)
        × (parse_auth_login body ≡ ok pkt)
        × (validate pkt.account_name pkt.session_key false sm ≡ true)
        × (after ≡ set_authenticated pkt.account_name pkt.session_key client))

handle_protocol_version-client :
    (client : GameClient) (body : List ℕ) (o : Outcome)
    → handle_protocol_version client body ≡ ok o
    → o ≡ stay client
unfolding handle_protocol_version
handle_protocol_version-client client body o h = ground arith

handle_auth_login-ok :
    (sm : SessionManager) (client : GameClient) (body : List ℕ) (o : Outcome)
    → handle_auth_login sm client body ≡ ok o
    → (pkt : AuthLogin) × (parse_auth_login body ≡ ok pkt)
      × (validate pkt.account_name pkt.session_key false sm ≡ true)
      × (o ≡ stay (set_authenticated pkt.account_name pkt.session_key client))
unfolding handle_auth_login
handle_auth_login-ok sm client body o h =
    let (pkt, parsed, next) = >>=-eq-ok (parse_auth_login body) _ h in
    let (valid, last) = guard-eq-ok _ _ _ next in (pkt, parsed, valid, cc)

late-client :
    (sm : SessionManager) (client : GameClient) (opcode : ℕ) (body : List ℕ) (o : Outcome)
    → client.state ≢ client_connected
    → (if opcode == 0x08 then handle_auth_login sm client body else ok (stay client)) ≡ ok o
    → IsClientStep sm client body o.client
late-client sm client opcode body o late h = elim (Bool-cases (opcode == 0x08)) [
  | inl e ↦
      (let h' : handle_auth_login sm client body ≡ ok o = ground arith in
        let (pkt, parsed, valid, after) = handle_auth_login-ok sm client body o h' in
        inr (pkt, late, parsed, valid, ap (λ (r : Outcome). r.client) after))
  | inr e ↦ inl (
      let h' : ok o ≡ ok (stay client) = ground arith in
      let e' : o ≡ stay client = cc in ap (λ (r : Outcome). r.client) e')
]

dispatch_by_state-client :
    (sm : SessionManager) (client : GameClient) (s : ClientConnectionState) (opcode : ℕ)
    (body : List ℕ) (o : Outcome)
    → client.state ≡ s
    → dispatch_by_state sm client s opcode body ≡ ok o
    → IsClientStep sm client body o.client
unfolding dispatch_by_state
dispatch_by_state-client sm client client_connected opcode body o e h =
    elim (Bool-cases (opcode == 0x0E)) [
      | inl e' ↦ inl (
          ap (λ (r : Outcome). r.client)
            (handle_protocol_version-client client body o (ground arith)))
      | inr e' ↦ inl (
          let h' : ok o ≡ ok (close client) = ground arith in
          let e'' : o ≡ close client = cc in ap (λ (r : Outcome). r.client) e'')
    ]
dispatch_by_state-client sm client client_authenticated opcode body o e h =
    late-client sm client opcode body o (rw e (λ d. ground arith)) h
dispatch_by_state-client sm client client_entering opcode body o e h =
    late-client sm client opcode body o (rw e (λ d. ground arith)) h
dispatch_by_state-client sm client client_in_game opcode body o e h =
    late-client sm client opcode body o (rw e (λ d. ground arith)) h
dispatch_by_state-client sm client client_disconnected opcode body o e h = cc

-- A packet that is handled without an error leaves the client as it is, or the client was not in the
-- first state and is authenticated by an AuthLogin whose key fits the session of its account.
pub handle_packet-IsClientStep :
    (sm : SessionManager) (client : GameClient) (opcode : ℕ) (body : List ℕ) (o : Outcome)
    → handle_packet sm client (opcode ∷ body) ≡ ok o
    → IsClientStep sm client body o.client
unfolding handle_packet
handle_packet-IsClientStep sm client opcode body o h =
    dispatch_by_state-client sm client client.state opcode body o refl h

handle_packet-connected :
    (sm : SessionManager) (client : GameClient) (packet : List ℕ) (o : Outcome)
    → client.state ≡ client_connected
    → handle_packet sm client packet ≡ ok o
    → o.client ≡ client
handle_packet-connected sm client [] o s h = unfold handle_packet in cc
handle_packet-connected sm client (opcode ∷ body) o s h =
    elim (handle_packet-IsClientStep sm client opcode body o h) [
      | inl e ↦ e
      | inr (pkt, late, parsed, valid, after) ↦ absurd (late s)
    ]

serve_connected :
    (client : GameClient) (packets : List (SessionManager × List ℕ))
    → client.state ≡ client_connected
    → serve client packets ≡ client
unfolding serve
serve_connected client [] s = refl
serve_connected client ((sm, packet) ∷ packets) s =
    elim (Result-cases (handle_packet sm client packet)) [
      | inl (o, e) ↦
          (let same : o.client ≡ client = handle_packet-connected sm client packet o s e in
            rw (e, serve)
              (elim (Bool-cases o.keep) [
                | inl k ↦ rw (k, same) (serve_connected client packets s)
                | inr k ↦ rw k same
              ]))
      | inr (inl (failure, e)) ↦ rw (e, serve) refl
      | inr (inr e) ↦ rw (e, serve) refl
    ]

-- Whatever packets a new client sends, and whatever sessions there are, its connection ends with the
-- client as it was made: no client is ever authenticated.
pub serve-new_game_client :
    (session_id : ℤ) (packets : List (SessionManager × List ℕ))
    → serve (new_game_client session_id) packets ≡ new_game_client session_id
serve-new_game_client session_id packets =
    serve_connected (new_game_client session_id) packets (unfold new_game_client in refl)
