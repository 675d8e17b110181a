-- ===== src/Login/Handler/Queries.antt =====
-- internal/login/handler.go: the changes of state of `handleAuthGameGuard`, `handleRequestServerList`
-- and `handleRequestServerLogin`.
use la2go.Prelude.{ℕ, ◌≡◌, refl, List, ◌∷◌, Bool, true, false, not, length, ltb, ◌&&◌}
use la2go.Prelude.Int.{ℤ, eq_ℤ, int32}
use la2go.Bytes.{word_at, of_le, slice}
use la2go.Login.Session.{SessionKey, check_login_pair}
use la2go.Login.Client.{
  Config, ConnectionState, state_connected, state_authed_gg, state_authed_login, is_state,
}
use la2go.Login.Handler.{
  AccountRepository, Env, Server, handle_auth_game_guard, find_server, handle_request_server_list,
  handle_request_server_login,
}
use la2go.Login.Handler.Steps.{stays, passes_game_guard, AllSteps, both}

pub is_state_iff : (a b : ConnectionState) → not (is_state a b) ≡ false → a ≡ b
unfolding is_state
is_state_iff state_connected state_connected h = refl
is_state_iff state_connected state_authed_gg h = cc
is_state_iff state_connected state_authed_login h = cc
is_state_iff state_authed_gg state_connected h = cc
is_state_iff state_authed_gg state_authed_gg h = refl
is_state_iff state_authed_gg state_authed_login h = cc
is_state_iff state_authed_login state_connected h = cc
is_state_iff state_authed_login state_authed_gg h = cc
is_state_iff state_authed_login state_authed_login h = refl

pub not-false : (b : Bool) → not b ≡ false → b ≡ true
not-false true h = refl
not-false false h = cc

module _ {S : Type 0} (repo : AccountRepository S) (env : Env) (cfg : Config) (sk : SessionKey)
    (now : ℤ) where
  pub game_guard-AllSteps :
      (body : List ℕ) (st : Server S)
      → AllSteps repo env cfg sk now (0x07 ∷ body) st (handle_auth_game_guard body st)
  unfolding handle_auth_game_guard
  game_guard-AllSteps body st =
      both repo env cfg sk now _ st _ _ (not (is_state st.client.state state_connected))
        (λ e. stays refl refl)
        (λ e.
          both repo env cfg sk now _ st _ _ (ltb (length body) 4) (λ short. tt)
            (λ long.
              both repo env cfg sk now _ st _ _
                (not (eq_ℤ (int32 (word_at body 0)) st.client.session_id))
                (λ other. stays refl refl)
                (λ this.
                  passes_game_guard body refl (is_state_iff _ _ e) long (not-false _ this) refl)))

  pub server_list-AllSteps :
      (packet body : List ℕ) (st : Server S)
      → AllSteps repo env cfg sk now packet st (handle_request_server_list env cfg body st)
  unfolding handle_request_server_list
  server_list-AllSteps packet body st =
      both repo env cfg sk now _ st _ _ (not (is_state st.client.state state_authed_login))
        (λ e. stays refl refl)
        (λ e.
          both repo env cfg sk now _ st _ _ (ltb (length body) 8) (λ short. tt)
            (λ long.
              both repo env cfg sk now _ st _ _
                (not (
                  check_login_pair st.client.session_key (int32 (word_at body 0))
                    (int32 (word_at body 4))))
                (λ e. stays refl refl) (λ e. stays refl refl)))

  pub server_login-AllSteps :
      (packet body : List ℕ) (st : Server S)
      → AllSteps repo env cfg sk now packet st (handle_request_server_login cfg body st)
  unfolding handle_request_server_login
  server_login-AllSteps packet body st =
      both repo env cfg sk now _ st _ _ (not (is_state st.client.state state_authed_login))
        (λ e. stays refl refl)
        (λ e.
          both repo env cfg sk now _ st _ _ (ltb (length body) 9) (λ short. tt)
            (λ long.
              both repo env cfg sk now _ st _ _
                (cfg.show_licence
                  && not (
                      check_login_pair st.client.session_key (int32 (word_at body 0))
                        (int32 (word_at body 4))))
                (λ e. stays refl refl)
                (λ e.
                  both repo env cfg sk now _ st _ _
                    (not (find_server cfg.game_servers (of_le (slice 8 1 body))))
                    (λ e. stays refl refl) (λ e. stays refl refl))))
