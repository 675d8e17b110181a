-- ===== src/Relay/Handler/Steps.antt =====
-- internal/gslistener/handler.go: the changes of state that a packet of a game server can cause, as
-- a relation between the packet, the reply and the states before and after.
use la2go.Prelude.{
  ℕ, ◌-◌, ◌≤◌, ◌%◌, ◌≡◌, ◌≢◌, refl, List, ◌∷◌, Bool, true, false, ◌||◌, ◌&&◌, not, if◌then◌else◌,
  Option, none, some, length, drop, same, Result, ok, err, panic, ◌>>=◌,
}
use la2go.Crypto.Blowfish.{Cipher, CipherFactory, new_blowfish_cipher}
use la2go.Login.Session.{Account, validate, remove}
use la2go.Registry.Info.{GameServerInfo}
use la2go.Registry.Table.{GameServerTable, get_by_id}
use la2go.Registry.Table.Search.{Consistent}
use la2go.Relay.ClientPackets.{
  GameServerAuth, Attribute, PlayerAuthRequest, parse_blow_fish_key, parse_game_server_auth,
  parse_player_in_game, parse_player_logout, parse_player_auth_request, parse_server_status,
}
use la2go.Relay.ServerPackets.{auth_response, player_auth_response}
use la2go.Relay.Connection.{gs_connected, gs_bf_connected, gs_authed, has_account, member}
use la2go.Relay.Handler.{Relay, Reply, nothing, refuse, server_name, update_info, set_attributes}

-- A game server with this hexadecimal id may take the place of the entry: there is none, or one
-- with the same id that is not authenticated.
abbrev pub IsOpen : List ℕ → Option GameServerInfo → Type 0
IsOpen hex_id none = Unit {0}
IsOpen hex_id (some info) = (same info.hex_id hex_id ≡ true) × (info.is_authed ≡ false)

-- What becomes of the table when a game server registers under an id.
pub record Registered (id : ℕ) (pkt : GameServerAuth) (t t' : GameServerTable) : Type 0 where
  pub was_open : IsOpen pkt.hex_id (get_by_id id t)
  pub entry : GameServerInfo
  pub entered : get_by_id id t' ≡ some entry
  pub has_hex_id : same entry.hex_id pkt.hex_id ≡ true
  pub has_port : entry.port ≡ pkt.port
  pub has_max_players : entry.max_players ≡ pkt.max_players
  pub has_hosts : entry.hosts ≡ pkt.hosts
  pub authed : entry.is_authed ≡ true
  pub agrees : Consistent t → Consistent t'
  pub others : (i : ℕ) → i ≢ id → get_by_id i t' ≡ get_by_id i t

-- The id that a packet asks for belongs to a game server with another hexadecimal id.
abbrev pub IsForeign : GameServerAuth → GameServerTable → Type 0
IsForeign pkt t =
    (existing : GameServerInfo) × (get_by_id pkt.id t ≡ some existing)
    × (same existing.hex_id pkt.hex_id ≡ false)

-- The id under which a packet may register: the one it asks for, or, where that is foreign and the
-- packet takes another, the least one that no game server has.
pub data Takes (pkt : GameServerAuth) (t : GameServerTable) (id : ℕ) : Type 0 where
  wanted : id ≡ pkt.id → Takes pkt t id
  alternate :
      IsForeign pkt t
      → pkt.accept_alternate ≡ true
      → get_by_id id t ≡ none
      → ((j : ℕ) → 1 ≤ j → j ≤ 127 → get_by_id j t ≡ none → id ≤ j)
      → Takes pkt t id

-- Why a packet is refused, and the reason that the reply names.
pub data Refused (pkt : GameServerAuth) (t : GameServerTable) (reply : Reply) : Type 0 where
  in_use :
      (existing : GameServerInfo)
      → get_by_id pkt.id t ≡ some existing
      → same existing.hex_id pkt.hex_id ≡ true
      → existing.is_authed ≡ true
      → reply ≡ refuse 7
      → Refused pkt t reply
  none_left :
      IsForeign pkt t
      → pkt.accept_alternate ≡ true
      → ((j : ℕ) → 1 ≤ j → j ≤ 127 → get_by_id j t ≢ none)
      → reply ≡ refuse 5
      → Refused pkt t reply
  foreign : IsForeign pkt t → pkt.accept_alternate ≡ false → reply ≡ refuse 3 → Refused pkt t reply

abbrev pub answer : Account → Bool → Reply
answer account success = record { packet = player_auth_response account success; keep = true }

-- What a packet can do.
pub data GsStep (rsa_decrypt : List ℕ → Option (List ℕ)) (new_cipher : CipherFactory)
    (packet : List ℕ) (st : Relay) (reply : Reply) (st' : Relay) : Type 0 where
  sets_key :
      (body encrypted_key block : List ℕ) (cipher : Cipher)
      → packet ≡ 0x00 ∷ body
      → st.conn.state ≡ gs_connected
      → parse_blow_fish_key body ≡ ok encrypted_key
      → rsa_decrypt encrypted_key ≡ some block
      → new_blowfish_cipher new_cipher (drop (length block - 40) block) ≡ ok cipher
      → reply ≡ nothing
      → st' ≡ record st {
        conn = (record st.conn { blowfish_cipher = cipher; state = gs_bf_connected });
      }
      → GsStep rsa_decrypt new_cipher packet st reply st'
  is_refused :
      (body : List ℕ) (pkt : GameServerAuth)
      → packet ≡ 0x01 ∷ body
      → st.conn.state ≡ gs_bf_connected
      → parse_game_server_auth body ≡ ok pkt
      → Refused pkt st.gs_table reply
      → st' ≡ st
      → GsStep rsa_decrypt new_cipher packet st reply st'
  registers :
      (body : List ℕ) (pkt : GameServerAuth) (id : ℕ)
      → packet ≡ 0x01 ∷ body
      → st.conn.state ≡ gs_bf_connected
      → parse_game_server_auth body ≡ ok pkt
      → Takes pkt st.gs_table id
      → Registered id pkt st.gs_table st'.gs_table
      → reply ≡ record { packet = auth_response (id % 256) (server_name id); keep = true }
      → st'.conn ≡ record st.conn { info = some id; state = gs_authed }
      → st'.session_manager ≡ st.session_manager
      → GsStep rsa_decrypt new_cipher packet st reply st'
  players_enter :
      (body : List ℕ) (players accounts : List Account)
      → packet ≡ 0x02 ∷ body
      → st.conn.state ≡ gs_authed
      → parse_player_in_game body ≡ ok players
      → reply ≡ nothing
      → st' ≡ record st { conn = record st.conn { accounts = accounts } }
      → ((a : Account) → has_account a st'.conn ≡ (has_account a st.conn || member a players))
      → GsStep rsa_decrypt new_cipher packet st reply st'
  player_leaves :
      (body : List ℕ) (account : Account) (accounts : List Account)
      → packet ≡ 0x03 ∷ body
      → st.conn.state ≡ gs_authed
      → parse_player_logout body ≡ ok account
      → reply ≡ nothing
      → st' ≡ record st { conn = record st.conn { accounts = accounts } }
      → ((a : Account) → has_account a st'.conn ≡ (has_account a st.conn && not (same a account)))
      → GsStep rsa_decrypt new_cipher packet st reply st'
  takes_session :
      (body : List ℕ) (pkt : PlayerAuthRequest)
      → packet ≡ 0x05 ∷ body
      → st.conn.state ≡ gs_authed
      → parse_player_auth_request body ≡ ok pkt
      → validate pkt.account pkt.session_key false st.session_manager ≡ true
      → reply ≡ answer pkt.account true
      → st' ≡ record st { session_manager = remove pkt.account st.session_manager }
      → GsStep rsa_decrypt new_cipher packet st reply st'
  finds_no_session :
      (body : List ℕ) (pkt : PlayerAuthRequest)
      → packet ≡ 0x05 ∷ body
      → st.conn.state ≡ gs_authed
      → parse_player_auth_request body ≡ ok pkt
      → validate pkt.account pkt.session_key false st.session_manager ≡ false
      → reply ≡ answer pkt.account false
      → st' ≡ st
      → GsStep rsa_decrypt new_cipher packet st reply st'
  reports :
      (body : List ℕ) (id : ℕ) (attributes : List Attribute)
      → packet ≡ 0x06 ∷ body
      → st.conn.state ≡ gs_authed
      → parse_server_status body ≡ ok attributes
      → st.conn.info ≡ some id
      → reply ≡ nothing
      → st' ≡ record st { gs_table = update_info id (set_attributes attributes) st.gs_table }
      → GsStep rsa_decrypt new_cipher packet st reply st'

module _ (rsa_decrypt : List ℕ → Option (List ℕ)) (new_cipher : CipherFactory) (packet : List ℕ)
    (st : Relay) where
  abbrev pub AllSteps : Result (Reply × Relay) → Type 0
  AllSteps (ok (reply, st')) = GsStep rsa_decrypt new_cipher packet st reply st'
  AllSteps (err e) = Unit {0}
  AllSteps panic = Unit {0}

  pub both :
      (x y : Result (Reply × Relay)) (b : Bool)
      → (b ≡ true → AllSteps x)
      → (b ≡ false → AllSteps y)
      → AllSteps (if b then x else y)
  both x y true hx hy = hx refl
  both x y false hx hy = hy refl

  pub bind-AllSteps :
      {A : Type 0} (m : Result A) (f : A → Result (Reply × Relay))
      → ((a : A) → m ≡ ok a → AllSteps (f a))
      → AllSteps (m >>= f)
  bind-AllSteps (ok a) f h = h a refl
  bind-AllSteps (err e) f h = tt
  bind-AllSteps panic f h = tt
