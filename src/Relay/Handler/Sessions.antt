-- ===== src/Relay/Handler/Sessions.antt =====
-- internal/gslistener/handler.go: `handlePlayerAuthRequest`, by which a game server has a player's
-- session checked and taken out of the table of the login server.
use la2go.Prelude.{ℕ, ◌^◌, ◌≡◌, ◌≢◌, refl, ap, ◌∙◌, List, ◌∷◌, true, false, Option, ok}
use la2go.Prelude.Int.{ℤ, pos, IsInt}
use la2go.Packet.Reader.{run_ok, new_reader, bind_ok, read_int, read_string}
use la2go.Packet.Writer.{Writer, new_writer, write_int, write_string}
use la2go.Packet.RoundTrip.Text.{IsText}
use la2go.Packet.RoundTrip.Chains.{Grows-self, write_int-Grows, read_int-Grows, read_string-Grows}
use la2go.Crypto.Blowfish.{CipherFactory}
use la2go.Login.Session.{SessionKey, SessionManager, Account, load, validate, remove, store}
use la2go.Login.Session.Laws.{validate-remove, validate-store, load_frame}
use la2go.Relay.ClientPackets.{
  PlayerAuthRequest, parse_player_auth_request, read_player_auth_request,
}
use la2go.Relay.Connection.{GsConnection, gs_authed}
use la2go.Relay.Handler.Steps.{answer}
use la2go.Relay.Handler.{Relay, handle_player_auth_request, handle_authed, handle_packet}

module _ (rsa_decrypt : List ℕ → Option (List ℕ)) (new_cipher : CipherFactory) where
  accepts :
      (body : List ℕ) (pkt : PlayerAuthRequest) (st : Relay)
      → st.conn.state ≡ gs_authed
      → parse_player_auth_request body ≡ ok pkt
      → validate pkt.account pkt.session_key false st.session_manager ≡ true
      → handle_packet rsa_decrypt new_cipher (0x05 ∷ body) st
        ≡ ok (
          answer pkt.account true,
          record st { session_manager = remove pkt.account st.session_manager },
        )
  unfolding handle_packet handle_authed handle_player_auth_request
  accepts body pkt st s parsed valid =
      simp (handle_packet, s, handle_authed, handle_player_auth_request, parsed, valid) refl

  refuses :
      (body : List ℕ) (pkt : PlayerAuthRequest) (st : Relay)
      → st.conn.state ≡ gs_authed
      → parse_player_auth_request body ≡ ok pkt
      → validate pkt.account pkt.session_key false st.session_manager ≡ false
      → handle_packet rsa_decrypt new_cipher (0x05 ∷ body) st ≡ ok (answer pkt.account false, st)
  unfolding handle_packet handle_authed handle_player_auth_request
  refuses body pkt st s parsed invalid =
      simp (handle_packet, s, handle_authed, handle_player_auth_request, parsed, invalid) refl

  -- A request whose key fits is accepted, with an answer that says so, and takes the session of
  -- the account; whatever key a second request for the account then brings, on this or on another
  -- authenticated connection, it is refused and changes nothing; and the sessions of the other
  -- accounts stay as they were.
  pub auth_request_once :
      (body body' : List ℕ) (pkt pkt' : PlayerAuthRequest) (st : Relay) (conn : GsConnection)
      → st.conn.state ≡ gs_authed
      → conn.state ≡ gs_authed
      → parse_player_auth_request body ≡ ok pkt
      → parse_player_auth_request body' ≡ ok pkt'
      → pkt'.account ≡ pkt.account
      → validate pkt.account pkt.session_key false st.session_manager ≡ true
      → let after = remove pkt.account st.session_manager in
        let st' = record st { conn = conn; session_manager = after } in
        (handle_packet rsa_decrypt new_cipher (0x05 ∷ body) st
          ≡ ok (answer pkt.account true, record st { session_manager = after }))
        × (handle_packet rsa_decrypt new_cipher (0x05 ∷ body') st'
            ≡ ok (answer pkt.account false, st'))
        × ((other : Account)
            → other ≢ pkt.account
            → load other after ≡ load other st.session_manager)
  auth_request_once body body' pkt pkt' st conn s s' parsed parsed' same valid = (
    accepts body pkt st s parsed valid,
    refuses body' pkt' _ s' parsed'
          (rw same (validate-remove pkt.account pkt'.session_key false st.session_manager))
        ∙ ap
            (λ (a : Account). ok (
              answer a false,
              record st { conn = conn; session_manager = remove pkt.account st.session_manager },
            ))
            same,
    λ other d. (load_frame other pkt.account pkt.session_key (pos 0) st.session_manager d).0,
  )

-- The request as a game server writes it: the account, then the four words of the key.
abbrev pub write_key : Writer → SessionKey → Writer
write_key w key =
    write_int (write_int (write_int (write_int w key.play_ok_id1) key.play_ok_id2) key.login_ok_id1)
      key.login_ok_id2

abbrev pub auth_request_bytes : Account → SessionKey → List ℕ
auth_request_bytes account key = (write_key (write_string new_writer account) key).buf

-- Every word of the key is an int32.
abbrev pub IsKey : SessionKey → Type 0
IsKey key =
    IsInt (2 ^ 31) key.login_ok_id1
    × IsInt (2 ^ 31) key.login_ok_id2
    × IsInt (2 ^ 31) key.play_ok_id1
    × IsInt (2 ^ 31) key.play_ok_id2

pub parse-auth_request_bytes :
    (account : Account) (key : SessionKey)
    → IsText account
    → IsKey key
    → parse_player_auth_request (auth_request_bytes account key)
      ≡ ok (record { account = account; session_key = key })
unfolding parse_player_auth_request read_player_auth_request new_reader new_writer
parse-auth_request_bytes account key text (l1, l2, p1, p2) =
    let bytes = auth_request_bytes account key in
    let w1 = write_string new_writer account in
    let w2 = write_int w1 key.play_ok_id1 in
    let w3 = write_int w2 key.play_ok_id2 in
    let w4 = write_int w3 key.login_ok_id1 in
    let g5 = Grows-self (write_int w4 key.login_ok_id2) in
    let g4 = write_int-Grows w4 bytes key.login_ok_id2 g5 in
    let g3 = write_int-Grows w3 bytes key.login_ok_id1 g4 in
    let g2 = write_int-Grows w2 bytes key.play_ok_id2 g3 in
    let g1 = write_int-Grows w1 bytes key.play_ok_id1 g2 in
    let r1 = read_string-Grows new_writer bytes account text g1 in
    let r2 = read_int-Grows w1 bytes key.play_ok_id1 p1 g2 in
    let r3 = read_int-Grows w2 bytes key.play_ok_id2 p2 g3 in
    let r4 = read_int-Grows w3 bytes key.login_ok_id1 l1 g4 in
    let r5 = read_int-Grows w4 bytes key.login_ok_id2 l2 g5 in
    run_ok read_player_auth_request bytes (
      bind_ok read_string _ _ r1
      ∙ (bind_ok read_int _ _ r2
          ∙ (bind_ok read_int _ _ r3 ∙ (bind_ok read_int _ _ r4 ∙ bind_ok read_int _ _ r5))))

-- A player whose login has stored a session, under an account that is a text and a key of four
-- int32, is accepted when an authenticated game server asks with the account and the key of that
-- login, and the session is taken.
pub auth_request-store :
    (rsa_decrypt : List ℕ → Option (List ℕ)) (new_cipher : CipherFactory) (account : Account)
    (key : SessionKey) (now : ℤ) (sm : SessionManager) (st : Relay)
    → IsText account
    → IsKey key
    → st.conn.state ≡ gs_authed
    → st.session_manager ≡ store account key now sm
    → handle_packet rsa_decrypt new_cipher (0x05 ∷ auth_request_bytes account key) st
      ≡ ok (answer account true, record st { session_manager = remove account st.session_manager })
auth_request-store rsa_decrypt new_cipher account key now sm st text ints s stored =
    accepts rsa_decrypt new_cipher (auth_request_bytes account key)
      (record { account = account; session_key = key }) st s
      (parse-auth_request_bytes account key text ints)
      (ap (λ (m : SessionManager). validate account key false m) stored
        ∙ validate-store account key now false sm)
