-- ===== src/Relay/Handler/Races.antt =====
-- internal/gslistener/handler.go: two connections that authenticate at the same time.
-- `handleGameServerAuth` reads whether the entry is authenticated and sets it later, in two critical
-- sections, so a second connection may act on what it read before the first one has finished.
use la2go.Prelude.{ℕ, ◌≡◌, ◌≢◌, refl, true, false, some, same, ◌==◌, arith}
use la2go.Registry.Info.{GameServerInfo}
use la2go.Relay.ClientPackets.{GameServerAuth}
use la2go.Relay.Connection.{GsConnection}
use la2go.Relay.Handler.{Relay, auth_existing, finalize_registration}
use la2go.Relay.Handler.Network.{Network, seat, view, IsExclusive}
use la2go.Relay.Handler.Isolation.{seat_self}

-- The connection after `existing` was found free, as the flag stood when it was read.
auth_existing-info :
    (existing : GameServerInfo) (pkt : GameServerAuth) (st : Relay)
    → same existing.hex_id pkt.hex_id ≡ true
    → existing.is_authed ≡ false
    → (auth_existing existing pkt st).1.conn.info ≡ some pkt.id
unfolding auth_existing finalize_registration
auth_existing-info existing pkt st hex idle = rw (hex, idle) refl

-- Two connections that both read of one entry that it has their hexadecimal id and is not
-- authenticated, before either of them has set it, both end up with its id, so that the network is
-- no longer exclusive.
pub auth_existing_race :
    (existing : GameServerInfo) (pkt : GameServerAuth) (net : Network) (m n : ℕ)
    (a b : GsConnection)
    → m ≢ n
    → same existing.hex_id pkt.hex_id ≡ true
    → existing.is_authed ≡ false
    → let first = (auth_existing existing pkt (view net a)).1 in
      let second = (auth_existing existing pkt (record first { conn = b })).1 in
      ¬ IsExclusive (record {
        conns = seat m (some first.conn) (seat n (some second.conn) net.conns);
        gs_table = second.gs_table;
        session_manager = second.session_manager;
      })
auth_existing_race existing pkt net m n a b d hex idle x =
    let first = (auth_existing existing pkt (view net a)).1 in
    let second = (auth_existing existing pkt (record first { conn = b })).1 in
    let other : (n == m) ≡ false = ground arith in
    x.apart m n first.conn second.conn pkt.id pkt.id d
      (seat_self m (some first.conn) (seat n (some second.conn) net.conns))
      (rw other (seat_self n (some second.conn) net.conns))
      (auth_existing-info existing pkt (view net a) hex idle)
      (auth_existing-info existing pkt (record first { conn = b }) hex idle) refl
