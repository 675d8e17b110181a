-- ===== src/Login/Requests/Handled.antt =====
-- The handler answers the requests of a client that uses the ids it was given.
use mathlib.Core.List.{List}
use la2go.Prelude.{
  ℕ, suc, ◌+◌, ◌^◌, ◌≤◌, ◌≡◌, refl, sym, ap, ◌∙◌, [], ◌∷◌, ◌++◌, true, false, ltb, length, take,
  drop, ok, arith,
}
use la2go.Prelude.Int.{ℤ, int32, word, eq_ℤ, eq_ℤ_iff, IsInt, int32-word}
use la2go.Bytes.{IsBytes, slice, of_le, le_bytes, word_at}
use la2go.Bytes.Windows.{slice-slice}
use la2go.Bytes.Words.{of_le-le_bytes}
use la2go.Crypto.Blowfish.{IsBlockCipher}
use la2go.Crypto.Encryption.{LoginEncryption}
use la2go.Crypto.Encryption.Sealing.{replicate-IsBytes}
use la2go.Wire.Protocol.{read_packet}
use la2go.Login.Requests.Received.{read_packet-send_request}
use la2go.Login.Client.{Config, is_state, state_connected, state_authed_gg}
use la2go.Login.Session.{SessionKey}
use la2go.Login.ServerPackets.{gg_auth}
use la2go.Login.Handler.{AccountRepository, Env, Server, handle_auth_game_guard}
use la2go.Login.Handler.Auth.{handle_packet}
use la2go.Login.Requests.{auth_game_guard, send_request}

-- A part of the body behind the opcode, of a packet that begins with a payload.
body_part :
    (opcode n i k : ℕ) (body payload : List ℕ)
    → i + k ≤ n
    → take (suc n) (opcode ∷ body) ≡ payload
    → slice i k body ≡ slice i k (drop 1 payload)
unfolding slice
body_part opcode n i k body payload h e =
    let start : 0 + i ≡ i = omega arith in
    ap (λ (j : ℕ). slice j k body) (sym start)
    ∙ sym (slice-slice 0 n i k body h)
    ∙ ap (λ (p : List ℕ). slice i k (drop 1 p)) e

id_back : (id : ℤ) → IsInt (2 ^ 31) id → int32 (of_le (le_bytes 4 (word (2 ^ 32) id))) ≡ id
id_back id h =
    let number : of_le (le_bytes 4 (word (2 ^ 32) id)) ≡ word (2 ^ 32) id =
      of_le-le_bytes 4 (word (2 ^ 32) id) (ground arith) in
    rw number (int32-word id h)

module _ {S : Type 0} (repo : AccountRepository S) (env : Env) (cfg : Config) (sk : SessionKey)
    (now : ℤ) (st : Server S) where
  -- A packet that begins with the game guard's request for the id of the session.
  handle_packet-auth_game_guard :
      (id : ℤ) (plain : List ℕ)
      → IsInt (2 ^ 31) id
      → st.client.session_id ≡ id
      → is_state st.client.state state_connected ≡ true
      → take 21 plain ≡ auth_game_guard id
      → 24 ≤ length plain
      → handle_packet repo env cfg sk now plain st
        ≡ ok (
          record { packet = gg_auth id; keep = true },
          record st { client = record st.client { state = state_authed_gg } },
        )
  unfolding handle_packet handle_auth_game_guard auth_game_guard word_at slice
  handle_packet-auth_game_guard id [] int here connected begins room = absurd (omega arith)
  handle_packet-auth_game_guard id (p ∷ body) int here connected begins room =
      let opcode : p ≡ 0x07 = cc begins in
      let first : slice 0 4 body ≡ le_bytes 4 (word (2 ^ 32) id) =
        body_part p 20 0 4 body _ (omega arith) begins in
      let enough : ltb (length body) 4 ≡ false = ground arith in
      let same_id : eq_ℤ id id ≡ true = (eq_ℤ_iff id id).1 refl in
      rw (opcode, connected, enough, first, id_back id int, here, same_id) refl

  auth_game_guard-IsBytes : (id : ℤ) → IsBytes (auth_game_guard id)
  unfolding auth_game_guard
  auth_game_guard-IsBytes id = (
    omega arith,
    (omega arith, (omega arith, (omega arith, (omega arith, replicate-IsBytes 16)))),
  )

  -- The game guard's request that a client sends, with the id of the session it was given, from a
  -- buffer of bytes with room for it, is read by the server of a connection in the first state, with
  -- the same dynamic block cipher and a buffer that holds it, and handled: the server confirms the id
  -- and moves to the next state, and the rest of the stream is left.
  pub handle_packet-send_request :
      (enc : LoginEncryption) (id : ℤ) (buf : List ℕ) (buf_len : ℕ) (rest : List ℕ)
      → IsBlockCipher enc.dynamic_cipher
      → IsInt (2 ^ 31) id
      → st.client.session_id ≡ id
      → is_state st.client.state state_connected ≡ true
      → IsBytes buf
      → 34 ≤ length buf
      → 32 ≤ buf_len
      → (sent : List ℕ) × (plain : List ℕ) × (send_request enc (auth_game_guard id) buf ≡ ok sent)
        × (read_packet enc buf_len (sent ++ rest) ≡ ok (plain, rest))
        × (handle_packet repo env cfg sk now plain st
            ≡ ok (
              record { packet = gg_auth id; keep = true },
              record st { client = record st.client { state = state_authed_gg } },
            ))
  unfolding auth_game_guard
  handle_packet-send_request enc id buf buf_len rest law int here connected isb room fits =
      let (sent, plain, done, read, begins, width) =
        read_packet-send_request enc law (auth_game_guard id) buf (auth_game_guard-IsBytes id) isb
          buf_len rest (omega arith) (omega arith) (omega arith) in
      (
        sent,
        plain,
        done,
        read,
        handle_packet-auth_game_guard id plain int here connected begins (omega arith),
      )
