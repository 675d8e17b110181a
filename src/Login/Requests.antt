-- ===== src/Login/Requests.antt =====
-- The packets that `LoginClient` of internal/testutil/client.go sends after the first: their bytes,
-- and the frame around them.
pub mod Received
pub mod Handled
pub mod Tests
use la2go.Prelude.{
  ℕ, ◌+◌, ◌%◌, ◌^◌, List, [], ◌∷◌, ◌++◌, leb, length, take, replicate, Result, ok, check, ◌>>◌,
  ◌>>=◌,
}
use la2go.Prelude.Int.{ℤ, word}
use la2go.Bytes.{le_bytes, overwrite}
use la2go.Crypto.Encryption.{LoginEncryption, encrypt_packet_client}
use la2go.Crypto.Rsa.{rsa_encrypt_with_modulus}
use la2go.Wire.Frame.{framed}
use la2go.Wire.Stream.{header_size}

-- The payload is written behind the header of the client's buffer, sealed and framed.
unfoldable pub send_request : LoginEncryption → List ℕ → List ℕ → Result (List ℕ)
send_request enc payload buf =
    check (leb (header_size + length payload) (length buf))
    >> (encrypt_packet_client enc (overwrite header_size payload buf) header_size (length payload)
        >>= (λ (enc_size, sealed). framed enc_size sealed))

unfoldable pub auth_game_guard : ℤ → List ℕ
auth_game_guard session_id = 0x07 ∷ (le_bytes 4 (word (2 ^ 32) session_id) ++ replicate 16 0)

-- The block with the login and the password, as far as they fit.
unfoldable pub credentials_block : List ℕ → List ℕ → List ℕ
credentials_block login password =
    overwrite 0x6c (take 16 password) (overwrite 0x5e (take 14 login) (replicate 128 0))

unfoldable pub request_auth_login : List ℕ → List ℕ → List ℕ → Result (List ℕ)
request_auth_login rsa_modulus login password =
    rsa_encrypt_with_modulus rsa_modulus (credentials_block login password)
    >>= (λ encrypted. ok (0x00 ∷ encrypted))

unfoldable pub request_server_list : ℤ → ℤ → List ℕ
request_server_list login_ok_id1 login_ok_id2 =
    0x05 ∷ (le_bytes 4 (word (2 ^ 32) login_ok_id1) ++ le_bytes 4 (word (2 ^ 32) login_ok_id2))

unfoldable pub request_server_login : ℤ → ℤ → ℕ → List ℕ
request_server_login login_ok_id1 login_ok_id2 server_id =
    0x02
    ∷ (le_bytes 4 (word (2 ^ 32) login_ok_id1)
        ++ le_bytes 4 (word (2 ^ 32) login_ok_id2)
        ++ (server_id ∷ []))
