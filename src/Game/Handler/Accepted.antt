-- ===== src/Game/Handler/Accepted.antt =====
-- internal/gameserver/handler.go and clientpackets: the AuthLogin of a player whose login has stored a
-- session. A client as the server makes it never gets to the handler of the packet.
use la2go.Prelude.{
  ℕ, zero, suc, List, ◌∷◌, ◌≡◌, ◌∙◌, ok, err, false, length, arith, refl, true, invalid_session,
}
use la2go.Prelude.Int.{ℤ, pos}
use la2go.Packet.Reader.{Reader, new_reader, run_ok, bind_ok, read_int, read_string}
use la2go.Packet.Writer.{Writer, new_writer, write_int, write_string}
use la2go.Packet.RoundTrip.Text.{IsText}
use la2go.Packet.RoundTrip.Chains.{
  Grows, Grows-self, write_int-Grows, read_int-Grows, read_string-Grows,
}
use la2go.Login.Session.{SessionKey, SessionManager, Account, store, remove, validate}
use la2go.Login.Session.Laws.{validate-store, validate-remove}
use la2go.Relay.Handler.Sessions.{IsKey, write_key}
use la2go.Game.Client.{GameClient, new_game_client, set_authenticated}
use la2go.Game.Packets.{AuthLogin, parse_auth_login, read_auth_login, skip_ints}
use la2go.Game.Handler.{handle_packet, handle_auth_login, dispatch_by_state, stay, close}

abbrev pub write_zeros : ℕ → Writer → Writer
write_zeros zero w = w
write_zeros (suc n) w = write_zeros n (write_int w (pos 0))

-- The packet as a client writes it: the account, the four words of the key, and four zeros.
abbrev pub auth_login_bytes : Account → SessionKey → List ℕ
auth_login_bytes account key = (write_zeros 4 (write_key (write_string new_writer account) key)).buf

module _ (bytes : List ℕ) where
  -- A reader behind what a writer wrote.
  abbrev behind : Writer → Reader
  behind w = record { bytes = bytes; at = length w.buf }

  write_zeros-Grows : (n : ℕ) (w : Writer) → Grows (write_zeros n w) bytes → Grows w bytes
  write_zeros-Grows zero w g = g
  write_zeros-Grows (suc n) w g =
      write_int-Grows w bytes (pos 0) (write_zeros-Grows n (write_int w (pos 0)) g)

  skip_ints-write_zeros :
      (n : ℕ) (w : Writer)
      → Grows (write_zeros n w) bytes
      → skip_ints n (behind w) ≡ ok (tt, behind (write_zeros n w))
  unfolding skip_ints
  skip_ints-write_zeros zero w g = refl
  skip_ints-write_zeros (suc n) w g =
      let w' = write_int w (pos 0) in
      bind_ok read_int _ _
        (read_int-Grows w bytes (pos 0) (ground arith) (write_zeros-Grows n w' g))
      ∙ skip_ints-write_zeros n w' g

pub parse-auth_login_bytes :
    (account : Account) (key : SessionKey)
    → IsText account
    → IsKey key
    → parse_auth_login (auth_login_bytes account key)
      ≡ ok (record { account_name = account; session_key = key })
unfolding parse_auth_login read_auth_login new_reader new_writer
parse-auth_login_bytes account key text (l1, l2, p1, p2) =
    let bytes = auth_login_bytes account key in
    let w1 = write_string new_writer account in
    let w2 = write_int w1 key.play_ok_id1 in
    let w3 = write_int w2 key.play_ok_id2 in
    let w4 = write_int w3 key.login_ok_id1 in
    let w5 = write_int w4 key.login_ok_id2 in
    let g6 = Grows-self (write_zeros 4 w5) in
    let g5 = write_zeros-Grows bytes 4 w5 g6 in
    let g4 = write_int-Grows w4 bytes key.login_ok_id2 g5 in
    let g3 = write_int-Grows w3 bytes key.login_ok_id1 g4 in
    let g2 = write_int-Grows w2 bytes key.play_ok_id2 g3 in
    let g1 = write_int-Grows w1 bytes key.play_ok_id1 g2 in
    run_ok read_auth_login bytes (
      bind_ok read_string _ _ (read_string-Grows new_writer bytes account text g1)
      ∙ (bind_ok read_int _ _ (read_int-Grows w1 bytes key.play_ok_id1 p1 g2)
          ∙ (bind_ok read_int _ _ (read_int-Grows w2 bytes key.play_ok_id2 p2 g3)
              ∙ (bind_ok read_int _ _ (read_int-Grows w3 bytes key.login_ok_id1 l1 g4)
                  ∙ (bind_ok read_int _ _ (read_int-Grows w4 bytes key.login_ok_id2 l2 g5)
                      ∙ bind_ok (skip_ints 4) _ _ (skip_ints-write_zeros bytes 4 w5 g6))))))

module _ (sm : SessionManager) (client : GameClient) (body : List ℕ) (pkt : AuthLogin)
    (parsed : parse_auth_login body ≡ ok pkt) where
  accepts :
      validate pkt.account_name pkt.session_key false sm ≡ true
      → handle_auth_login sm client body
        ≡ ok (stay (set_authenticated pkt.account_name pkt.session_key client))
  unfolding handle_auth_login
  accepts valid = rw (parsed, valid) refl

  refuses :
      validate pkt.account_name pkt.session_key false sm ≡ false
      → handle_auth_login sm client body ≡ err invalid_session
  unfolding handle_auth_login
  refuses invalid = rw (parsed, invalid) refl

-- The bytes of an AuthLogin, of an account that is a text and a key of four int32, are read back as
-- that account and key; the handler of the packet authenticates the client by them while the session
-- is stored as the login stored it, and refuses them once the session is removed; and from a client
-- as the server makes it, the same packet closes the connection before that handler is reached.
pub auth_login-store :
    (account : Account) (key : SessionKey) (now session_id : ℤ) (sm : SessionManager)
    (client : GameClient)
    → IsText account
    → IsKey key
    → let body = auth_login_bytes account key in
      let stored = store account key now sm in
      (parse_auth_login body ≡ ok (record { account_name = account; session_key = key }))
      × (handle_auth_login stored client body ≡ ok (stay (set_authenticated account key client)))
      × (handle_auth_login (remove account stored) client body ≡ err invalid_session)
      × (handle_packet stored (new_game_client session_id) (0x08 ∷ body)
          ≡ ok (close (new_game_client session_id)))
unfolding handle_packet new_game_client dispatch_by_state
auth_login-store account key now session_id sm client text ints =
    let parsed = parse-auth_login_bytes account key text ints in
    (
      parsed,
      accepts _ client _ _ parsed (validate-store account key now false sm),
      refuses _ client _ _ parsed (validate-remove account key false (store account key now sm)),
      refl,
    )
