-- ===== src/Login/Handshake/Tests.antt =====
-- A run of the first packet.
use la2go.Prelude.{ℕ, ◌≡◌, refl, List, [], ◌++◌, false, ok, some, replicate, arith}
use la2go.Prelude.Int.{negsuc}
use la2go.Crypto.Blowfish.{CipherFactory, new_blowfish_cipher}
use la2go.Crypto.Encryption.{new_login_encryption}
use la2go.Crypto.Encryption.Sealing.{replicate-IsBytes}
use la2go.Crypto.Rsa.{scramble_modulus, swap_loop, xor_loop, set_byte, byte_of}
use la2go.Crypto.Tests.{shift_cipher, shift_cipher-IsBlockCipher, new_connection}
use la2go.Login.Handshake.{send_init, read_init_packet}
use la2go.Login.Handshake.Opened.{knows, read_init_packet-send_init}

abbrev shifts : CipherFactory
shifts key = some shift_cipher

abbrev no_modulus : List ℕ
no_modulus = replicate 128 0

abbrev no_key : List ℕ
no_key = replicate 16 0

no_modulus-scrambled : scramble_modulus no_modulus ≡ ok no_modulus
unfolding scramble_modulus swap_loop xor_loop set_byte byte_of
no_modulus-scrambled = refl

shifts-made : new_login_encryption shifts no_key ≡ ok new_connection
unfolding new_login_encryption new_blowfish_cipher
shifts-made = refl

read_init_packet-send_init_example :
    (sent : List ℕ) × (send_init 7 new_connection (negsuc 4) no_modulus no_key (replicate 200 0)
      ≡ (record new_connection { first_packet = false }, ok sent))
    × (read_init_packet shifts 4096 (sent ++ [])
        ≡ ok (knows (negsuc 4) no_modulus no_key new_connection, []))
read_init_packet-send_init_example =
    read_init_packet-send_init shifts new_connection 7 (negsuc 4) no_modulus no_modulus no_key
      shifts-made shift_cipher-IsBlockCipher (omega arith) (omega arith, omega arith)
      (replicate-IsBytes 128) refl no_modulus-scrambled (replicate-IsBytes 128) refl
      (replicate-IsBytes 16) refl (replicate 200 0) 4096 [] (replicate-IsBytes 200) (omega arith)
      (omega arith)
