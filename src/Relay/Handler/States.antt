-- ===== src/Relay/Handler/States.antt =====
-- internal/gslistener/handler.go: which changes of state a packet of a game server can cause. A
-- connection goes from connected to bf_connected to authed and never back.
use mathlib.Core.Path.{subst}
use la2go.Prelude.{
  ℕ, ◌≡◌, refl, ap, ◌∙◌, inl, inr, List, [], ◌∷◌, false, Option, ◌==◌, Result, ok, Bool-cases,
  Option-cases, arith,
}
use la2go.Crypto.Blowfish.{CipherFactory}
use la2go.Login.Session.{Account, validate}
use la2go.Registry.Table.Search.{Consistent}
use la2go.Relay.ClientPackets.{
  parse_player_auth_request, parse_player_in_game, parse_player_logout, parse_server_status,
}
use la2go.Relay.Connection.{
  GsConnection, GsConnectionState, gs_connected, gs_bf_connected, gs_authed, add_accounts,
  add_account, remove_account, has_account,
}
use la2go.Relay.Handler.{
  Relay, Reply, handle_player_in_game, handle_player_logout, handle_player_auth_request,
  handle_server_status, handle_authed, handle_packet,
}
use la2go.Relay.Handler.Accounts.{has_account-add_accounts, has_account-remove_account}
use la2go.Relay.Handler.Steps.{
  GsStep, players_enter, player_leaves, takes_session, finds_no_session, reports, AllSteps, both,
  bind-AllSteps,
}
use la2go.Relay.Handler.Registering.{blow_fish_key-AllSteps, game_server_auth-AllSteps}

-- Adding accounts changes nothing else of the connection.
add_account-keeps :
    (account : Account) (conn : GsConnection)
    → add_account account conn ≡ record conn { accounts = (add_account account conn).accounts }
unfolding add_account
add_account-keeps account conn = elim (Bool-cases (has_account account conn)) [
  | inl e ↦ rw e refl
  | inr e ↦ rw e refl
]

add_accounts-keeps :
    (accounts : List Account) (conn : GsConnection)
    → add_accounts accounts conn ≡ record conn { accounts = (add_accounts accounts conn).accounts }
unfolding add_accounts
add_accounts-keeps [] conn = refl
add_accounts-keeps (account ∷ accounts) conn =
    add_accounts-keeps accounts (add_account account conn)
    ∙ ap
        (λ (c : GsConnection). record c {
          accounts = (add_accounts accounts (add_account account conn)).accounts;
        })
        (add_account-keeps account conn)

module _ (rsa_decrypt : List ℕ → Option (List ℕ)) (new_cipher : CipherFactory) where
  module _ (body : List ℕ) (st : Relay) (hs : st.conn.state ≡ gs_authed) where
    player_in_game-AllSteps :
        AllSteps rsa_decrypt new_cipher (0x02 ∷ body) st (handle_player_in_game body st)
    unfolding handle_player_in_game
    player_in_game-AllSteps =
        bind-AllSteps rsa_decrypt new_cipher _ st (parse_player_in_game body) _ λ players parsed.
          players_enter body players (add_accounts players st.conn).accounts refl hs parsed refl
            (ap (λ (c : GsConnection). record st { conn = c }) (add_accounts-keeps players st.conn))
            (λ a. has_account-add_accounts a players st.conn)

    player_logout-AllSteps :
        AllSteps rsa_decrypt new_cipher (0x03 ∷ body) st (handle_player_logout body st)
    unfolding handle_player_logout remove_account
    player_logout-AllSteps =
        bind-AllSteps rsa_decrypt new_cipher _ st (parse_player_logout body) _ λ account parsed.
          player_leaves body account _ refl hs parsed refl refl
            (λ a. has_account-remove_account a account st.conn)

    player_auth_request-AllSteps :
        AllSteps rsa_decrypt new_cipher (0x05 ∷ body) st (handle_player_auth_request body st)
    unfolding handle_player_auth_request
    player_auth_request-AllSteps =
        bind-AllSteps rsa_decrypt new_cipher _ st (parse_player_auth_request body) _ λ pkt parsed.
          elim (Bool-cases (validate pkt.account pkt.session_key false st.session_manager)) [
            | inl valid ↦ rw valid (takes_session body pkt refl hs parsed valid refl refl)
            | inr refused ↦ rw refused (finds_no_session body pkt refl hs parsed refused refl refl)
          ]

    server_status-AllSteps :
        AllSteps rsa_decrypt new_cipher (0x06 ∷ body) st (handle_server_status body st)
    unfolding handle_server_status
    server_status-AllSteps =
        bind-AllSteps rsa_decrypt new_cipher _ st (parse_server_status body) _ λ attributes parsed.
          elim (Option-cases st.conn.info) [
            | inl e ↦ rw e tt
            | inr (id, e) ↦
                simp (handle_server_status, e)
                  (reports body id attributes refl hs parsed e refl refl)
          ]

  authed-AllSteps :
      (opcode : ℕ) (body : List ℕ) (st : Relay)
      → st.conn.state ≡ gs_authed
      → AllSteps rsa_decrypt new_cipher (opcode ∷ body) st (handle_authed opcode body st)
  unfolding handle_authed
  authed-AllSteps opcode body st hs =
      both rsa_decrypt new_cipher _ st _ _ (opcode == 0x02)
        (λ e. let is : opcode ≡ 0x02 = ground arith in rw is (player_in_game-AllSteps body st hs))
        (λ e.
          both rsa_decrypt new_cipher _ st _ _ (opcode == 0x03)
            (λ e.
              let is : opcode ≡ 0x03 = ground arith in rw is (player_logout-AllSteps body st hs))
            (λ e.
              both rsa_decrypt new_cipher _ st _ _ (opcode == 0x05)
                (λ e.
                  let is : opcode ≡ 0x05 = ground arith in
                  rw is (player_auth_request-AllSteps body st hs))
                (λ e.
                  both rsa_decrypt new_cipher _ st _ _ (opcode == 0x06)
                    (λ e.
                      let is : opcode ≡ 0x06 = ground arith in
                      rw is (server_status-AllSteps body st hs))
                    (λ e. tt))))

  dispatch :
      (opcode : ℕ) (body : List ℕ) (st : Relay) (state : GsConnectionState)
      → st.conn.state ≡ state
      → Consistent st.gs_table
      → AllSteps rsa_decrypt new_cipher
          (opcode ∷ body)
          st
          (handle_packet rsa_decrypt new_cipher (opcode ∷ body) st)
  unfolding handle_packet
  dispatch opcode body st gs_connected e c =
      simp (handle_packet, e)
        (both rsa_decrypt new_cipher _ st _ _ (opcode == 0x00)
          (λ q.
            let is : opcode ≡ 0x00 = ground arith in
            rw is (blow_fish_key-AllSteps rsa_decrypt new_cipher body st e))
          (λ q. tt))
  dispatch opcode body st gs_bf_connected e c =
      simp (handle_packet, e)
        (both rsa_decrypt new_cipher _ st _ _ (opcode == 0x01)
          (λ q.
            let is : opcode ≡ 0x01 = ground arith in
            rw is (game_server_auth-AllSteps rsa_decrypt new_cipher body st e c))
          (λ q. tt))
  dispatch opcode body st gs_authed e c = simp (handle_packet, e) (authed-AllSteps opcode body st e)

  -- Whatever a packet of a game server is, where the bitmap agrees with the map and the packet is
  -- handled without an error, it does one of these by what stands in it. A connected server sets the
  -- key that its block decrypts to. One with a key is refused for the reason that the reply names,
  -- and nothing changes; or it registers with the values of the packet under the id it asks for,
  -- where that has no entry or one with its hexadecimal id that is not authenticated, or, where
  -- the id belongs to another hexadecimal id and the packet takes another, under the least id that
  -- no server has, and no other entry changes. An authenticated one adds the accounts of players, or
  -- takes one off, or takes the session of an account whose stored key the key in the packet fits,
  -- or finds none and is told so, or changes its own entry by the attributes it sends.
  pub handle_packet-GsStep :
      (packet : List ℕ) (st st' : Relay) (reply : Reply)
      → Consistent st.gs_table
      → handle_packet rsa_decrypt new_cipher packet st ≡ ok (reply, st')
      → GsStep rsa_decrypt new_cipher packet st reply st'
  handle_packet-GsStep packet st st' reply c h =
      subst (λ (r : Result (Reply × Relay)). AllSteps rsa_decrypt new_cipher packet st r) h
        (all packet)
    where
      all :
          (packet : List ℕ)
          → AllSteps rsa_decrypt new_cipher packet st
              (handle_packet rsa_decrypt new_cipher packet st)
      all [] = unfold handle_packet in tt
      all (opcode ∷ body) = dispatch opcode body st st.conn.state refl c
