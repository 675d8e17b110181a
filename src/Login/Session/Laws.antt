-- ===== src/Login/Session/Laws.antt =====
-- What the session table answers after each of its operations (internal/login/session_manager.go).
use la2go.Prelude.{
  ℕ, ◌≡◌, ◌≢◌, inl, inr, refl, sym, ap, ◌∙◌, List, [], ◌∷◌, Bool, true, false, if◌then◌else◌,
  Option, none, some, same, same_refl, same_iff, Bool-cases,
}
use la2go.Prelude.Int.{ℤ, eq_ℤ, eq_ℤ_iff}
use la2go.Login.Session.{
  SessionKey, SessionInfo, Account, SessionManager, load, remove, store_info, store, key_matches,
  validate, expired, clean_expired,
}

eq_ℤ_refl : (a : ℤ) → eq_ℤ a a ≡ true
eq_ℤ_refl a = (eq_ℤ_iff a a).1 refl

same_no : (xs ys : List ℕ) → xs ≢ ys → same xs ys ≡ false
same_no xs ys h = elim (Bool-cases (same xs ys)) [
  | inl e ↦ absurd (h ((same_iff xs ys).0 e))
  | inr e ↦ e
]

key_matches_refl : (key : SessionKey) (b : Bool) → key_matches key key b ≡ true
unfolding key_matches
key_matches_refl key true =
    rw
      (
        eq_ℤ_refl key.login_ok_id1,
        eq_ℤ_refl key.login_ok_id2,
        eq_ℤ_refl key.play_ok_id1,
        eq_ℤ_refl key.play_ok_id2,
      )
      refl
key_matches_refl key false = rw (eq_ℤ_refl key.play_ok_id1, eq_ℤ_refl key.play_ok_id2) refl

pub load-remove :
    (account : Account) (sm : SessionManager) → load account (remove account sm) ≡ none
unfolding load remove
load-remove account [] = refl
load-remove account ((a, info) ∷ sm) = elim (Bool-cases (same a account)) [
  | inl e ↦ rw e (load-remove account sm)
  | inr e ↦ rw (e, e) (load-remove account sm)
]

load-remove_other : (a b : Account) (sm : SessionManager) → a ≢ b → load a (remove b sm) ≡ load a sm
unfolding load remove
load-remove_other a b [] h = refl
load-remove_other a b ((c, info) ∷ sm) h = elim (Bool-cases (same c b)) [
  | inl e ↦
      let other : same c a ≡ false = same_no c a (λ ca. h (sym ca ∙ (same_iff c b).0 e)) in
      rw (e, other) (load-remove_other a b sm h)
  | inr e ↦ rw (e, load-remove_other a b sm h) refl
]

pub load-store :
    (account : Account) (key : SessionKey) (now : ℤ) (sm : SessionManager)
    → load account (store account key now sm)
      ≡ some (record { session_key = key; created_at = now })
unfolding load store store_info
load-store account key now sm = rw (same_refl account) refl

load-store_other :
    (a b : Account) (key : SessionKey) (now : ℤ) (sm : SessionManager)
    → a ≢ b
    → load a (store b key now sm) ≡ load a sm
unfolding load store store_info
load-store_other a b key now sm h = rw (same_no b a (λ e. h (sym e))) (load-remove_other a b sm h)

validate-some :
    (account : Account) (key : SessionKey) (b : Bool) (sm : SessionManager) {info : SessionInfo}
    → load account sm ≡ some info
    → validate account key b sm ≡ key_matches info.session_key key b
unfolding validate key_matches
validate-some account key b sm e = rw (validate, e) refl

validate-none :
    (account : Account) (key : SessionKey) (b : Bool) (sm : SessionManager)
    → load account sm ≡ none
    → validate account key b sm ≡ false
unfolding validate
validate-none account key b sm e = rw (validate, e) refl

pub validate-store :
    (account : Account) (key : SessionKey) (now : ℤ) (show_licence : Bool) (sm : SessionManager)
    → validate account key show_licence (store account key now sm) ≡ true
validate-store account key now b sm =
    validate-some account key b _ (load-store account key now sm) ∙ key_matches_refl key b

pub validate-remove :
    (account : Account) (key : SessionKey) (show_licence : Bool) (sm : SessionManager)
    → validate account key show_licence (remove account sm) ≡ false
validate-remove account key b sm = validate-none account key b _ (load-remove account sm)

-- Removing, or storing, the session of one account leaves what is kept for the others.
pub load_frame :
    (a b : Account) (key : SessionKey) (now : ℤ) (sm : SessionManager)
    → a ≢ b
    → (load a (remove b sm) ≡ load a sm) × (load a (store b key now sm) ≡ load a sm)
load_frame a b key now sm h = (load-remove_other a b sm h, load-store_other a b key now sm h)

-- A session kept for an account is found again after a clean-up exactly when it is not older than
-- the limit, and what is found was there before: for tables with one entry for each account.
abbrev pub IsOnce : SessionManager → Type 0
IsOnce [] = Unit {0}
IsOnce ((a, info) ∷ sm) = (load a sm ≡ none) × IsOnce sm

unfoldable pub fresh_part : ℤ → ℤ → Option SessionInfo → Option SessionInfo
fresh_part now ttl none = none
fresh_part now ttl (some info) = if expired now ttl info then none else some info

pub load-clean_expired :
    (account : Account) (now ttl : ℤ) (sm : SessionManager)
    → IsOnce sm
    → load account (clean_expired now ttl sm) ≡ fresh_part now ttl (load account sm)
unfolding load clean_expired fresh_part
load-clean_expired account now ttl [] h = refl
load-clean_expired account now ttl ((a, info) ∷ sm) (h, once) =
    elim (Bool-cases (expired now ttl info)) [
      | inl e ↦ elim (Bool-cases (same a account)) [
        | inl s ↦
            let gone : load account sm ≡ none =
              ap (λ (x : Account). load x sm) (sym ((same_iff a account).0 s)) ∙ h in
            rw (e, s, e, load-clean_expired account now ttl sm once, gone) refl
        | inr s ↦ rw (e, s, load-clean_expired account now ttl sm once) refl
      ]
      | inr e ↦ elim (Bool-cases (same a account)) [
        | inl s ↦ rw (e, s, e) refl
        | inr s ↦ rw (e, s, load-clean_expired account now ttl sm once) refl
      ]
    ]
