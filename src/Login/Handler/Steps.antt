-- ===== src/Login/Handler/Steps.antt =====
-- internal/login/handler.go: the changes of state that a packet can cause, as a relation between the
-- packet and the states before and after.
use la2go.Prelude.{
  ℕ, ◌≡◌, refl, List, [], ◌∷◌, true, false, none, some, length, take, ltb, same, Bool,
  if◌then◌else◌, Result, ok, err, panic,
}
use la2go.Prelude.Int.{ℤ, pos, ltb_ℤ, eq_ℤ, int32}
use la2go.Bytes.{word_at, slice}
use la2go.Login.Session.{SessionKey, Account, store}
use la2go.Login.Client.{Config, state_connected, state_authed_gg, state_authed_login}
use la2go.Login.Handler.{AccountRow, AccountRepository, Env, Server, Reply, trim_right}

module _ {S : Type 0} (repo : AccountRepository S) (env : Env) (cfg : Config) (sk : SessionKey)
    (now : ℤ) where
  -- The row that the repository has for a login, or the one that it makes, where it may and the
  -- login is a new one, and the state of the repository behind that.
  pub data Found (login : Account) (password : List ℕ) (st : Server S) (acc : AccountRow)
      (accounts : S) : Type 0 where
    kept :
        repo.get_account st.accounts login ≡ some (some acc)
        → accounts ≡ st.accounts
        → Found login password st acc accounts
    created :
        repo.get_account st.accounts login ≡ some none
        → cfg.auto_create_accounts ≡ true
        → repo.get_or_create_account st.accounts login (env.hash_password password) st.client.ip
          ≡ (some acc, accounts)
        → Found login password st acc accounts

  -- A login by the login and the password that stand in the decrypted block of the packet.
  pub record LogsIn (body : List ℕ) (st st' : Server S) : Type 0 where
    pub decrypted : List ℕ
    pub login : Account
    pub password : List ℕ
    pub acc : AccountRow
    pub accounts : S
    pub past_game_guard : st.client.state ≡ state_authed_gg
    pub decrypts : env.rsa_decrypt (take 128 body) ≡ some decrypted
    pub login_read : login ≡ env.to_lower (env.trim_space (trim_right (slice 0x5e 14 decrypted)))
    pub password_read : password ≡ env.trim_space (trim_right (slice 0x6c 16 decrypted))
    pub has_login : same login [] ≡ false
    pub has_password : same password [] ≡ false
    pub found : Found login password st acc accounts
    pub fits : same acc.password_hash (env.hash_password password) ≡ true
    pub not_banned : ltb_ℤ acc.access_level (pos 0) ≡ false
    pub becomes : st' ≡ record {
      client = (record st.client { state = state_authed_login; session_key = sk; account = login });
      session_manager = store login sk now st.session_manager;
      accounts = repo.update_last_login accounts login st.client.ip;
    }

  -- The client and the sessions stay, the client passes the game guard, or it logs in.
  pub data Step (packet : List ℕ) (st st' : Server S) : Type 0 where
    stays : st'.client ≡ st.client → st'.session_manager ≡ st.session_manager → Step packet st st'
    passes_game_guard :
        (body : List ℕ)
        → packet ≡ 0x07 ∷ body
        → st.client.state ≡ state_connected
        → ltb (length body) 4 ≡ false
        → eq_ℤ (int32 (word_at body 0)) st.client.session_id ≡ true
        → st' ≡ record st { client = record st.client { state = state_authed_gg } }
        → Step packet st st'
    logs_in : (body : List ℕ) → packet ≡ 0x00 ∷ body → LogsIn body st st' → Step packet st st'

  abbrev pub AllSteps : List ℕ → Server S → Result (Reply × Server S) → Type 0
  AllSteps packet st (ok (reply, st')) = Step packet st st'
  AllSteps packet st (err e) = Unit {0}
  AllSteps packet st panic = Unit {0}

  -- Both branches of a test.
  pub both :
      (packet : List ℕ) (st : Server S) (x y : Result (Reply × Server S)) (b : Bool)
      → (b ≡ true → AllSteps packet st x)
      → (b ≡ false → AllSteps packet st y)
      → AllSteps packet st (if b then x else y)
  both packet st x y true hx hy = hx refl
  both packet st x y false hx hy = hy refl
