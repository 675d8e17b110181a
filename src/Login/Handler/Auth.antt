-- ===== src/Login/Handler/Auth.antt =====
-- internal/login/handler.go: `handleRequestAuthLogin`, in the parts that its early returns cut it
-- into, and `HandlePacket`.
use la2go.Prelude.{
  ℕ, ◌⊎◌, inl, inr, List, [], ◌∷◌, true, false, not, ◌||◌, if◌then◌else◌, none, some, length, take,
  ltb, ◌==◌, same, Result, ok, err, panic, empty_packet,
}
use la2go.Prelude.Int.{ℤ, pos, ltb_ℤ}
use la2go.Bytes.{slice}
use la2go.Login.Session.{SessionKey, Account, store}
use la2go.Login.ServerPackets.{account_kicked, login_ok}
use la2go.Login.Client.{Config, state_authed_gg, state_authed_login, is_state}
use la2go.Login.Handler.{
  AccountRow, AccountRepository, Env, Server, Reply, nothing, close_fail, trim_right,
  build_server_list, handle_auth_game_guard, handle_request_server_list,
  handle_request_server_login,
}

-- The login and the password in a decrypted block.
unfoldable pub credentials : Env → List ℕ → List ℕ × List ℕ
credentials env decrypted = (
  env.to_lower (env.trim_space (trim_right (slice 0x5e 14 decrypted))),
  env.trim_space (trim_right (slice 0x6c 16 decrypted)),
)

module _ {S : Type 0} where
  -- `GetAccount`, then `GetOrCreateAccount` where accounts are created automatically: the row, or
  -- the reason to refuse.
  unfoldable pub find_account :
      AccountRepository S → Env → Config → Account → List ℕ → Server S → (AccountRow ⊎ ℕ) × Server S
  find_account repo env cfg login password st = elim (repo.get_account st.accounts login) [
    | none ↦ (inr 0x01, st)
    | some none ↦
        if cfg.auto_create_accounts
        then (let (found, accounts) =
              (repo.get_or_create_account st.accounts login (env.hash_password password)
                st.client.ip) in
            let st1 = record st { accounts = accounts } in
            elim found [ none ↦ (inr 0x01, st1) | some acc ↦ (inl acc, st1) ])
        else (inr 0x02, st)
    | some (some acc) ↦ (inl acc, st)
  ]

  -- The end of a successful login: the client's fields, the session, the time of the last login.
  unfoldable pub login_succeeds :
      AccountRepository S → Env → Config → SessionKey → ℤ → Account → Server S → Reply × Server S
  login_succeeds repo env cfg sk now login st = (
    record {
      packet =
          (if cfg.show_licence
            then login_ok sk.login_ok_id1 sk.login_ok_id2
            else build_server_list env.parse_ip cfg.game_servers);
      keep = true;
    },
    record {
      client = (record st.client { state = state_authed_login; session_key = sk; account = login });
      session_manager = store login sk now st.session_manager;
      accounts = repo.update_last_login st.accounts login st.client.ip;
    },
  )

  -- The tests of the account that was found.
  unfoldable pub check_account :
      AccountRepository S
      → Env
      → Config
      → SessionKey
      → ℤ
      → Account
      → List ℕ
      → (AccountRow ⊎ ℕ) × Server S
      → Reply × Server S
  check_account repo env cfg sk now login password (inr reason, st) = (close_fail reason, st)
  check_account repo env cfg sk now login password (inl acc, st) =
      if not (same acc.password_hash (env.hash_password password))
      then (close_fail 0x02, st)
      else if ltb_ℤ acc.access_level (pos 0)
      then (record { packet = account_kicked (pos 0x20); keep = false }, st)
      else login_succeeds repo env cfg sk now login st

  -- From the decrypted block on.
  unfoldable pub authenticate :
      AccountRepository S
      → Env
      → Config
      → SessionKey
      → ℤ
      → List ℕ × List ℕ
      → Server S
      → Reply × Server S
  authenticate repo env cfg sk now (login, password) st =
      if same login [] || same password []
      then (close_fail 0x02, st)
      else check_account repo env cfg sk now login password
          (find_account repo env cfg login password st)

  -- `sk` is the key that `NewSessionKey` draws and `now` the time that `Store` reads. The slices
  -- of the decrypted block panic where it has fewer than 124 bytes.
  unfoldable pub handle_request_auth_login :
      AccountRepository S
      → Env
      → Config
      → SessionKey
      → ℤ
      → List ℕ
      → Server S
      → Result (Reply × Server S)
  handle_request_auth_login repo env cfg sk now data_ st =
      if not (is_state st.client.state state_authed_gg)
      then ok (nothing, st)
      else if ltb (length data_) 128
      then ok (close_fail 0x15, st)
      else elim (env.rsa_decrypt (take 128 data_)) [
        | none ↦ ok (close_fail 0x15, st)
        | some decrypted ↦
            if ltb (length decrypted) 124
            then panic
            else ok (authenticate repo env cfg sk now (credentials env decrypted) st)
      ]

  unfoldable pub handle_packet :
      AccountRepository S
      → Env
      → Config
      → SessionKey
      → ℤ
      → List ℕ
      → Server S
      → Result (Reply × Server S)
  handle_packet repo env cfg sk now [] st = err empty_packet
  handle_packet repo env cfg sk now (opcode ∷ body) st =
      if opcode == 0x07
      then handle_auth_game_guard body st
      else if opcode == 0x00
      then handle_request_auth_login repo env cfg sk now body st
      else if opcode == 0x05
      then handle_request_server_list env cfg body st
      else if opcode == 0x02
      then handle_request_server_login cfg body st
      else ok (nothing, st)
