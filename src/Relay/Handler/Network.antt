-- ===== src/Relay/Handler/Network.antt =====
-- internal/gslistener/server.go and handler.go: all connections of game servers together, with the
-- table and the sessions that they share. A packet is handled as one step; what the login server
-- does to the sessions between two packets is left open.
use la2go.Prelude.{ℕ, ◌≡◌, ◌≢◌, List, true, false, Option, none, some, ◌==◌, ok, if◌then◌else◌}
use la2go.Crypto.Blowfish.{Cipher, CipherFactory}
use la2go.Login.Session.{SessionManager}
use la2go.Registry.Info.{GameServerInfo}
use la2go.Registry.Table.{GameServerTable, get_by_id}
use la2go.Registry.Table.Search.{Consistent}
use la2go.Relay.Connection.{GsConnection, gs_authed, new_gs_connection}
use la2go.Relay.Handler.{Relay, Reply, handle_packet, cleanup}

-- The connections that are up, by a number that tells them apart.
pub record Network : Type 0 where
  pub conns : ℕ → Option GsConnection
  pub gs_table : GameServerTable
  pub session_manager : SessionManager

abbrev pub seat : ℕ → Option GsConnection → (ℕ → Option GsConnection) → ℕ → Option GsConnection
seat n entry conns i = if i == n then entry else conns i

abbrev pub view : Network → GsConnection → Relay
view net conn = record {
  conn = conn;
  gs_table = net.gs_table;
  session_manager = net.session_manager;
}

-- The network after connection `n` has handled a packet, with the connection as it is left.
abbrev pub settle : ℕ → Option GsConnection → Relay → Network → Network
settle n entry st net = record {
  conns = seat n entry net.conns;
  gs_table = st.gs_table;
  session_manager = st.session_manager;
}

module _ (rsa_decrypt : List ℕ → Option (List ℕ)) (new_cipher : CipherFactory) where
  -- `handleConnection`: a new connection; a packet after which it stays, or is closed and cleaned
  -- up; a packet that fails, or the end of the stream, after which it is cleaned up.
  pub data NetStep (net : Network) : Network → Type 0 where
    connects :
        (n : ℕ) (cipher : Cipher)
        → net.conns n ≡ none
        → NetStep net (record net { conns = seat n (some (new_gs_connection cipher)) net.conns })
    handles :
        (n : ℕ) (conn : GsConnection) (packet : List ℕ) (reply : Reply) (st : Relay)
        → net.conns n ≡ some conn
        → handle_packet rsa_decrypt new_cipher packet (view net conn) ≡ ok (reply, st)
        → reply.keep ≡ true
        → NetStep net (settle n (some st.conn) st net)
    closes :
        (n : ℕ) (conn : GsConnection) (packet : List ℕ) (reply : Reply) (st : Relay)
        → net.conns n ≡ some conn
        → handle_packet rsa_decrypt new_cipher packet (view net conn) ≡ ok (reply, st)
        → reply.keep ≡ false
        → NetStep net (settle n none (cleanup st) net)
    fails :
        (n : ℕ) (conn : GsConnection)
        → net.conns n ≡ some conn
        → NetStep net (settle n none (cleanup (view net conn)) net)
    logs_in : (sm : SessionManager) → NetStep net (record net { session_manager = sm })

  pub data Reachable (start : Network) : Network → Type 0 where
    here : Reachable start start
    later : {net net' : Network} → Reachable start net → NetStep net net' → Reachable start net'

-- A connection has an id in the table exactly if it is authenticated, and the entry says so.
abbrev pub Holds : GameServerTable → GsConnection → Type 0
Holds t conn =
    (conn.state ≢ gs_authed → conn.info ≡ none)
    × (conn.state ≡ gs_authed
        → (id : ℕ) × (info : GameServerInfo) × (conn.info ≡ some id)
          × (get_by_id id t ≡ some info)
          × (info.is_authed ≡ true))

pub record IsExclusive (net : Network) : Type 0 where
  pub consistent : Consistent net.gs_table
  pub holds : (n : ℕ) (conn : GsConnection) → net.conns n ≡ some conn → Holds net.gs_table conn
  pub apart :
      (m n : ℕ) (a b : GsConnection) (i j : ℕ)
      → m ≢ n
      → net.conns m ≡ some a
      → net.conns n ≡ some b
      → a.info ≡ some i
      → b.info ≡ some j
      → i ≢ j
