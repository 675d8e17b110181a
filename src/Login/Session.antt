-- ===== src/Login/Session.antt =====
-- internal/login/session_key.go and session_manager.go. The map of sessions is an association list
-- with at most one entry for an account; accounts are lists of code points and times are numbers of
-- nanoseconds. The client kept with a session is not read by any operation and is left out.
pub mod Laws
pub mod Refinement
use la2go.Prelude.{
  ℕ, zero, suc, ◌+◌, List, [], ◌∷◌, Bool, true, false, ◌&&◌, if◌then◌else◌, Option, none, some,
  length, same,
}
use la2go.Prelude.Int.{ℤ, ◌-ℤ◌, eq_ℤ, ltb_ℤ}

pub record SessionKey : Type 0 where
  pub login_ok_id1 : ℤ
  pub login_ok_id2 : ℤ
  pub play_ok_id1 : ℤ
  pub play_ok_id2 : ℤ

unfoldable pub check_login_pair : SessionKey → ℤ → ℤ → Bool
check_login_pair sk ok1 ok2 = eq_ℤ sk.login_ok_id1 ok1 && eq_ℤ sk.login_ok_id2 ok2

pub record SessionInfo : Type 0 where
  pub session_key : SessionKey
  pub created_at : ℤ

abbrev pub Account : Type 0
Account = List ℕ

abbrev pub SessionManager : Type 0
SessionManager = List (Account × SessionInfo)

unfoldable pub new_session_manager : SessionManager
new_session_manager = []

unfoldable pub load : Account → SessionManager → Option SessionInfo
load account [] = none
load account ((a, info) ∷ sm) = if same a account then some info else load account sm

unfoldable pub remove : Account → SessionManager → SessionManager
remove account [] = []
remove account ((a, info) ∷ sm) =
    let rest = remove account sm in if same a account then rest else (a, info) ∷ rest

unfoldable pub store_info : Account → SessionInfo → SessionManager → SessionManager
store_info account info sm = (account, info) ∷ remove account sm

unfoldable pub store : Account → SessionKey → ℤ → SessionManager → SessionManager
store account key now sm = store_info account (record { session_key = key; created_at = now }) sm

unfoldable pub key_matches : SessionKey → SessionKey → Bool → Bool
key_matches kept key true =
    eq_ℤ kept.login_ok_id1 key.login_ok_id1
    && eq_ℤ kept.login_ok_id2 key.login_ok_id2
    && eq_ℤ kept.play_ok_id1 key.play_ok_id1
    && eq_ℤ kept.play_ok_id2 key.play_ok_id2
key_matches kept key false =
    eq_ℤ kept.play_ok_id1 key.play_ok_id1 && eq_ℤ kept.play_ok_id2 key.play_ok_id2

unfoldable pub validate : Account → SessionKey → Bool → SessionManager → Bool
validate account key show_licence sm = elim (load account sm) [
  | none ↦ false
  | some info ↦ key_matches info.session_key key show_licence
]

-- `now.Sub(info.CreatedAt) > ttl`
unfoldable pub expired : ℤ → ℤ → SessionInfo → Bool
expired now ttl info = ltb_ℤ ttl (now -ℤ info.created_at)

unfoldable pub clean_expired : ℤ → ℤ → SessionManager → SessionManager
clean_expired now ttl [] = []
clean_expired now ttl ((a, info) ∷ sm) =
    let rest = clean_expired now ttl sm in if expired now ttl info then rest else (a, info) ∷ rest

unfoldable pub count : SessionManager → ℕ
count sm = length sm
