-- ===== src/Relay/Handler/Exclusion.antt =====
-- internal/gslistener: every step of the network keeps each id with one connection of a game server.
use mathlib.Core.Path.{subst}
use la2go.Prelude.{
  ℕ, ◌≡◌, ◌≢◌, refl, ap, sym, ◌∙◌, inl, inr, List, [], ◌∷◌, Option, none, some, Option-cases, arith,
}
use la2go.Crypto.Blowfish.{CipherFactory}
use la2go.Registry.Info.{
  GameServerInfo, set_down, set_showing_brackets, set_server_type, set_status, set_age_limit,
  set_max_players,
}
use la2go.Relay.ClientPackets.{Attribute}
use la2go.Relay.Connection.{GsConnection, gs_bf_connected, new_gs_connection}
use la2go.Relay.Handler.{Relay, Reply, cleanup, update_info, set_attributes, set_attribute}
use la2go.Relay.Handler.Steps.{
  GsStep, sets_key, is_refused, registers, players_enter, player_leaves, takes_session,
  finds_no_session, reports,
}
use la2go.Relay.Handler.Table.{
  get_by_id-update_self, get_by_id-update_other, update_info-Consistent,
}
use la2go.Relay.Handler.States.{handle_packet-GsStep}
use la2go.Relay.Handler.Network.{
  Network, view, settle, NetStep, connects, handles, closes, fails, logs_in, Reachable, here, later,
  Holds, IsExclusive,
}
use la2go.Relay.Handler.Isolation.{
  settle-IsExclusive, keep-IsExclusive, held_entry, own_id, held, quiet-IsExclusive, open_id,
  seat_self, seat-seat,
}

-- The report of a server's state leaves whether it is authenticated.
set_attribute-is_authed :
    (attr : Attribute) (info : GameServerInfo)
    → (set_attribute attr info).is_authed ≡ info.is_authed
unfolding set_attribute set_showing_brackets set_server_type set_status set_age_limit
    set_max_players
set_attribute-is_authed attr info = ground arith

set_attributes-is_authed :
    (attributes : List Attribute) (info : GameServerInfo)
    → (set_attributes attributes info).is_authed ≡ info.is_authed
unfolding set_attributes
set_attributes-is_authed [] info = refl
set_attributes-is_authed (attr ∷ attributes) info =
    set_attributes-is_authed attributes (set_attribute attr info)
    ∙ set_attribute-is_authed attr info

module _ (net : Network) (x : IsExclusive net) (n : ℕ) (conn : GsConnection)
    (at_n : net.conns n ≡ some conn) where
  GsStep-IsExclusive :
      {rsa_decrypt : List ℕ → Option (List ℕ)} {new_cipher : CipherFactory} {packet : List ℕ}
      (reply : Reply) (st : Relay)
      → GsStep rsa_decrypt new_cipher packet (view net conn) reply st
      → IsExclusive (settle n (some st.conn) st net)
  GsStep-IsExclusive reply st (sets_key _ _ _ cipher _ s _ _ _ _ e) =
      let none_yet : conn.info ≡ none = (held net x n conn at_n).0 (λ a. cc (sym s ∙ a)) in
      rw e (
        keep-IsExclusive net x n
          (record (view net conn) {
            conn = record conn { blowfish_cipher = cipher; state = gs_bf_connected };
          })
          x.consistent (λ m b i d h ib. (refl, own_id net x n conn at_n m b i d h ib))
          (λ a. none_yet, λ a. cc))
  GsStep-IsExclusive reply st (is_refused _ _ _ s _ _ e) =
      rw e (quiet-IsExclusive net x n conn at_n conn.accounts net.session_manager)
  GsStep-IsExclusive reply st (registers _ pkt id _ s _ _ reg _ ec em) =
      let mine : Holds st.gs_table st.conn =
        rw ec (λ a. absurd (a refl), λ a. (id, reg.entry, refl, reg.entered, reg.authed)) in
      let others =
        λ (m : ℕ) (b : GsConnection) (i : ℕ) (d : m ≢ n) (h : net.conns m ≡ some b)
            (ib : b.info ≡ some i).
          open_id net x n conn at_n id pkt.hex_id m b i reg.was_open h ib in
      let taken = λ (i : ℕ) (si : st.conn.info ≡ some i).
        let e : i ≡ id = cc (ap (λ (c : GsConnection). c.info) ec) in e in
      keep-IsExclusive net x n st (reg.agrees x.consistent)
        (λ m b i d h ib.
          (reg.others i (others m b i d h ib), λ si. others m b i d h ib (taken i si)))
        mine
  GsStep-IsExclusive reply st (players_enter _ _ accounts _ s _ _ e _) =
      rw e (quiet-IsExclusive net x n conn at_n accounts net.session_manager)
  GsStep-IsExclusive reply st (player_leaves _ _ accounts _ s _ _ e _) =
      rw e (quiet-IsExclusive net x n conn at_n accounts net.session_manager)
  GsStep-IsExclusive reply st (takes_session _ _ _ s _ valid _ e) =
      rw e (quiet-IsExclusive net x n conn at_n conn.accounts _)
  GsStep-IsExclusive reply st (finds_no_session _ _ _ s _ invalid _ e) =
      rw e (quiet-IsExclusive net x n conn at_n conn.accounts net.session_manager)
  GsStep-IsExclusive reply st (reports _ id attributes _ s _ ei _ e) = rw e (
      keep-IsExclusive net x n
        (record (view net conn) {
          gs_table = update_info id (set_attributes attributes) net.gs_table;
        })
        (update_info-Consistent net.gs_table id (set_attributes attributes) x.consistent)
        (λ m b i d h ib. (
          get_by_id-update_other net.gs_table id i (set_attributes attributes)
              (λ q. own_id net x n conn at_n m b i d h ib (ei ∙ ap some (sym q))),
          own_id net x n conn at_n m b i d h ib,
        ))
        (
          (held net x n conn at_n).0,
          λ a.
              let (info, there, on) = held_entry net.gs_table conn id (held net x n conn at_n) ei in
              (
                id,
                set_attributes attributes info,
                ei,
                get_by_id-update_self net.gs_table id (set_attributes attributes) there,
                set_attributes-is_authed attributes info ∙ on,
              ),
        ))

  -- A connection ends: its entry in the table is marked as down.
  close-IsExclusive : IsExclusive (settle n none (cleanup (view net conn)) net)
  unfolding cleanup
  close-IsExclusive = elim (Option-cases conn.info) [
    | inl e ↦
        simp (cleanup, e)
          (settle-IsExclusive net x n none (view net conn) x.consistent (λ m b i d h ib. refl)
            (λ c a. cc) (λ c m b i a. cc))
    | inr (id, e) ↦
        simp (cleanup, e)
          (settle-IsExclusive net x n none
            (record (view net conn) { gs_table = update_info id set_down net.gs_table })
            (update_info-Consistent net.gs_table id set_down x.consistent)
            (λ m b i d h ib.
              get_by_id-update_other net.gs_table id i set_down
                (λ q. own_id net x n conn at_n m b i d h ib (e ∙ ap some (sym q))))
            (λ c a. cc) (λ c m b i a. cc))
  ]

module _ (rsa_decrypt : List ℕ → Option (List ℕ)) (new_cipher : CipherFactory) where
  NetStep-IsExclusive :
      {net net' : Network}
      → IsExclusive net
      → NetStep rsa_decrypt new_cipher net net'
      → IsExclusive net'
  unfolding new_gs_connection
  NetStep-IsExclusive {net} x (connects n cipher free) =
      keep-IsExclusive net x n (view net (new_gs_connection cipher)) x.consistent
        (λ m b i d h ib. (refl, λ e. cc)) (λ a. refl, λ a. cc)
  NetStep-IsExclusive {net} x (handles n conn packet reply st h run kept) =
      GsStep-IsExclusive net x n conn h reply st (
        handle_packet-GsStep rsa_decrypt new_cipher packet (view net conn) st reply x.consistent
          run)
  NetStep-IsExclusive {net} x (closes n conn packet reply st h run gone) =
      let still = GsStep-IsExclusive net x n conn h reply st (
        handle_packet-GsStep rsa_decrypt new_cipher packet (view net conn) st reply x.consistent
          run) in
      subst
        (λ (conns : ℕ → Option GsConnection). IsExclusive (record {
          conns = conns;
          gs_table = (cleanup st).gs_table;
          session_manager = (cleanup st).session_manager;
        }))
        (seat-seat n none (some st.conn) net.conns)
        (close-IsExclusive (settle n (some st.conn) st net) still n st.conn
          (seat_self n (some st.conn) net.conns))
  NetStep-IsExclusive {net} x (fails n conn h) = close-IsExclusive net x n conn h
  NetStep-IsExclusive {net} x (logs_in sm) = record {
    consistent = x.consistent;
    holds = x.holds;
    apart = x.apart;
  }

  -- From a network in which no two game servers share an id and the bitmap agrees with the map,
  -- whatever connections come, send and end, this stays so, and each authenticated connection
  -- has an entry in the table that says so.
  pub Reachable-IsExclusive :
      (start net : Network)
      → IsExclusive start
      → Reachable rsa_decrypt new_cipher start net
      → IsExclusive net
  Reachable-IsExclusive start net x here = x
  Reachable-IsExclusive start net x (later r step) =
      NetStep-IsExclusive (Reachable-IsExclusive start _ x r) step
