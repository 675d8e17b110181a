-- ===== src/Login/Handler/States.antt =====
-- internal/login/handler.go: which changes of state a packet can cause. A client goes from
-- connected to authed_gg to authed_login and never back.
use la2go.Prelude.{
  ℕ, ◌≡◌, refl, ap, ◌⊎◌, inl, inr, List, [], ◌∷◌, Bool, false, not, none, some, length, ltb, same,
  Option, Result, ok, Bool-cases, ◌==◌, take, Option-cases, ◌||◌, arith,
}
use mathlib.Core.Path.{subst}
use la2go.Prelude.Int.{ℤ, pos, ltb_ℤ}
use la2go.Login.Session.{SessionKey, Account}
use la2go.Login.Client.{Config, state_authed_gg, is_state}
use la2go.Login.Handler.{AccountRow, AccountRepository, Env, Server, Reply}
use la2go.Login.Handler.Auth.{
  credentials, find_account, login_succeeds, check_account, authenticate, handle_request_auth_login,
  handle_packet,
}
use la2go.Login.Handler.Steps.{Found, kept, created, Step, stays, logs_in, AllSteps, both}
use la2go.Login.Handler.Queries.{
  is_state_iff, not-false, game_guard-AllSteps, server_list-AllSteps, server_login-AllSteps,
}

either : (a b : Bool) → (a || b) ≡ false → (a ≡ false) × (b ≡ false)
either a b h = ground arith

module _ {S : Type 0} (repo : AccountRepository S) (env : Env) (cfg : Config) (sk : SessionKey)
    (now : ℤ) where
  -- What looking an account up gives: the client and the sessions stay, and a row that is found
  -- comes from the repository.
  abbrev Looked : Account → List ℕ → Server S → (AccountRow ⊎ ℕ) × Server S → Type 0
  Looked login password st (inr reason, st1) =
      (st1.client ≡ st.client) × (st1.session_manager ≡ st.session_manager)
  Looked login password st (inl acc, st1) =
      (st1.client ≡ st.client)
      × (st1.session_manager ≡ st.session_manager)
      × Found repo env cfg sk now login password st acc st1.accounts

  find_account-Looked :
      (login : Account) (password : List ℕ) (st : Server S)
      → Looked login password st (find_account repo env cfg login password st)
  unfolding find_account
  find_account-Looked login password st = elim (Option-cases (repo.get_account st.accounts login)) [
    | inl failed ↦ rw (failed, find_account) (refl, refl)
    | inr (some acc, found) ↦ rw (found, find_account) (refl, refl, kept found refl)
    | inr (none, missing) ↦
        rw (missing, find_account)
          (elim (Bool-cases cfg.auto_create_accounts) [
            | inl create ↦
                (let made =
                    repo.get_or_create_account st.accounts login (env.hash_password password)
                      st.client.ip in
                  simp create (elim (Option-cases made.0) [
                    | inl e ↦ rw e (refl, refl)
                    | inr (acc, e) ↦ rw e (
                      refl,
                      refl,
                      created missing create (ap (λ (r : Option AccountRow). (r, made.1)) e),
                    )
                  ]))
            | inr stop ↦ rw stop (refl, refl)
          ])
  ]

  -- From the decrypted block on.
  module _ (body decrypted : List ℕ) (login : Account) (password : List ℕ) (st : Server S)
      (past : st.client.state ≡ state_authed_gg)
      (decrypts : env.rsa_decrypt (take 128 body) ≡ some decrypted)
      (read : credentials env decrypted ≡ (login, password)) where
    check_account-Step :
        (looked : (AccountRow ⊎ ℕ) × Server S)
        → same login [] ≡ false
        → same password [] ≡ false
        → Looked login password st looked
        → Step repo env cfg sk now
            (0x00 ∷ body)
            st
            (check_account repo env cfg sk now login password looked).1
    unfolding check_account login_succeeds credentials
    check_account-Step (inr reason, st1) l p (hc, hm) = stays hc hm
    check_account-Step (inl acc, st1) l p (hc, hm, found) =
        elim (Bool-cases (not (same acc.password_hash (env.hash_password password)))) [
          | inl e ↦ rw e (stays hc hm)
          | inr e ↦ elim (Bool-cases (ltb_ℤ acc.access_level (pos 0))) [
            | inl banned ↦ rw (e, banned) (stays hc hm)
            | inr fine ↦
                rw (e, fine)
                  (logs_in body refl (record {
                    decrypted = decrypted;
                    login = login;
                    password = password;
                    acc = acc;
                    accounts = st1.accounts;
                    past_game_guard = past;
                    decrypts = decrypts;
                    login_read = cc (ap (λ (c : List ℕ × List ℕ). c.0) read);
                    password_read = cc (ap (λ (c : List ℕ × List ℕ). c.1) read);
                    has_login = l;
                    has_password = p;
                    found = found;
                    fits = not-false _ e;
                    not_banned = fine;
                    becomes = rw (hc, hm) refl;
                  }))
          ]
        ]

    authenticate-Step :
        Step repo env cfg sk now
          (0x00 ∷ body)
          st
          (authenticate repo env cfg sk now (login, password) st).1
    unfolding authenticate
    authenticate-Step = elim (Bool-cases (same login [] || same password [])) [
      | inl e ↦ rw e (stays refl refl)
      | inr e ↦
          (let (l, p) = either _ _ e in
            rw e (check_account-Step _ l p (find_account-Looked login password st)))
    ]

  auth_login-AllSteps :
      (body : List ℕ) (st : Server S)
      → AllSteps repo env cfg sk now
          (0x00 ∷ body)
          st
          (handle_request_auth_login repo env cfg sk now body st)
  unfolding handle_request_auth_login
  auth_login-AllSteps body st =
      both repo env cfg sk now _ st _ _ (not (is_state st.client.state state_authed_gg))
        (λ e. stays refl refl)
        (λ e.
          both repo env cfg sk now _ st _ _ (ltb (length body) 128) (λ short. stays refl refl)
            (λ long. elim (Option-cases (env.rsa_decrypt (take 128 body))) [
              | inl failed ↦ rw failed (stays refl refl)
              | inr (decrypted, got) ↦ rw got (
                  both repo env cfg sk now _ st _ _ (ltb (length decrypted) 124) (λ cut. tt)
                    (λ whole.
                      authenticate-Step body decrypted (credentials env decrypted).0
                        (credentials env decrypted).1 st (is_state_iff _ _ e) got refl))
            ]))

  handle_packet-AllSteps :
      (packet : List ℕ) (st : Server S)
      → AllSteps repo env cfg sk now packet st (handle_packet repo env cfg sk now packet st)
  unfolding handle_packet
  handle_packet-AllSteps [] st = tt
  handle_packet-AllSteps (opcode ∷ body) st =
      both repo env cfg sk now _ st _ _ (opcode == 0x07)
        (λ e.
          let is : opcode ≡ 0x07 = ground arith in
          rw is (game_guard-AllSteps repo env cfg sk now body st))
        (λ e.
          both repo env cfg sk now _ st _ _ (opcode == 0x00)
            (λ e. let is : opcode ≡ 0x00 = ground arith in rw is (auth_login-AllSteps body st))
            (λ e.
              both repo env cfg sk now _ st _ _ (opcode == 0x05)
                (λ e. server_list-AllSteps repo env cfg sk now _ body st)
                (λ e.
                  both repo env cfg sk now _ st _ _ (opcode == 0x02)
                    (λ e. server_login-AllSteps repo env cfg sk now _ body st)
                    (λ e. stays refl refl))))

  -- Whatever a packet is, if it is handled without an error then the client and the sessions stay as
  -- they are; or a connected client sends an AuthGameGuard with its own session id and passes the
  -- game guard; or a client past the game guard sends a RequestAuthLogin whose block decrypts to a
  -- login and a password, neither empty, the row that the repository has or makes for that login has
  -- the hash of that password and is not banned, and the client is logged in under that login, its
  -- session is stored, and the repository is told of the login.
  pub handle_packet-Step :
      (packet : List ℕ) (st st' : Server S) (reply : Reply)
      → handle_packet repo env cfg sk now packet st ≡ ok (reply, st')
      → Step repo env cfg sk now packet st st'
  handle_packet-Step packet st st' reply h =
      subst (λ (r : Result (Reply × Server S)). AllSteps repo env cfg sk now packet st r) h
        (handle_packet-AllSteps packet st)
