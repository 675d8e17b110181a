-- ===== src/Game/Packets.antt =====
-- internal/gameserver/clientpackets and serverpackets.
use la2go.Prelude.{ℕ, zero, suc, List, Bool, Result}
use la2go.Prelude.Int.{ℤ, pos, eq_ℤ}
use la2go.Packet.Reader.{Read, ◌>>=◌, pure, run, read_int, read_string}
use la2go.Packet.Writer.{new_writer, write_byte, write_bytes}
use la2go.Login.Session.{SessionKey, Account}

unfoldable pub parse_protocol_version : List ℕ → Result ℤ
parse_protocol_version body = run read_int body

unfoldable pub is_valid_revision : ℤ → Bool
is_valid_revision revision = eq_ℤ revision (pos 0x0106)

pub record AuthLogin : Type 0 where
  pub account_name : Account
  pub session_key : SessionKey

-- `for range 4`, the fields that nothing uses.
unfoldable pub skip_ints : ℕ → Read (Unit {0})
skip_ints zero = pure tt
skip_ints (suc n) = read_int >>= λ unknown. skip_ints n

unfoldable pub read_auth_login : Read AuthLogin
read_auth_login = do
  account_name ← read_string
  play_ok_id1 ← read_int
  play_ok_id2 ← read_int
  login_ok_id1 ← read_int
  login_ok_id2 ← read_int
  skipped ← skip_ints 4
  pure (record {
    account_name = account_name;
    session_key = (record {
      login_ok_id1 = login_ok_id1;
      login_ok_id2 = login_ok_id2;
      play_ok_id1 = play_ok_id1;
      play_ok_id2 = play_ok_id2;
    });
  })

unfoldable pub parse_auth_login : List ℕ → Result AuthLogin
parse_auth_login body = run read_auth_login body

unfoldable pub write_key_packet : List ℕ → List ℕ
write_key_packet blowfish_key =
    (write_bytes (write_byte (write_byte new_writer 0x2E) 0x01) blowfish_key).buf
