-- ===== src/Login/Session/Refinement.antt =====
-- The session table (internal/login/session_manager.go) against what it promises: a session for an
-- account, from its storing until its removal or until a clean-up finds it too old.
use la2go.Prelude.{
  ◌≡◌, inl, inr, refl, sym, ap, ◌∙◌, List, [], ◌∷◌, Bool, true, false, if◌then◌else◌, Option, none,
  some, same, same_iff, Bool-cases,
}
use la2go.Prelude.Int.{ℤ}
use la2go.Login.Session.{
  SessionKey, SessionInfo, Account, SessionManager, new_session_manager, load, remove, store_info,
  store, key_matches, validate, expired, clean_expired,
}
use la2go.Login.Session.Laws.{IsOnce, fresh_part, load-clean_expired, load-remove}

-- The calls that change the table, and a sequence of them, the latest first.
pub data SessionCall : Type 0 where
  stores : Account → SessionKey → ℤ → SessionCall
  removes : Account → SessionCall
  cleans : ℤ → ℤ → SessionCall

unfoldable pub run_call : SessionCall → SessionManager → SessionManager
run_call (stores account key now) sm = store account key now sm
run_call (removes account) sm = remove account sm
run_call (cleans now ttl) sm = clean_expired now ttl sm

unfoldable pub run_calls : List SessionCall → SessionManager
run_calls [] = new_session_manager
run_calls (call ∷ earlier) = run_call call (run_calls earlier)

-- The abstract table, a function of the account: what the latest call that matters to it has left.
unfoldable pub promised : List SessionCall → Account → Option SessionInfo
promised [] b = none
promised (stores account key now ∷ earlier) b =
    if same account b
    then some (record { session_key = key; created_at = now })
    else promised earlier b
promised (removes account ∷ earlier) b = if same account b then none else promised earlier b
promised (cleans now ttl ∷ earlier) b = fresh_part now ttl (promised earlier b)

same_apart : (a b c : Account) → same c a ≡ false → same c b ≡ true → same a b ≡ false
same_apart a b c e s = elim (Bool-cases (same a b)) [
  | inl t ↦
      (let c_a : c ≡ a = (same_iff c b).0 s ∙ sym ((same_iff a b).0 t) in
        let there : same c a ≡ true = (same_iff c a).1 c_a in cc)
  | inr t ↦ t
]

remove_lem :
    (a b : Account) (sm : SessionManager)
    → load b (remove a sm) ≡ (if same a b then none else load b sm)
unfolding load remove
remove_lem a b [] = elim (Bool-cases (same a b)) [ inl e ↦ rw e refl | inr e ↦ rw e refl ]
remove_lem a b ((c, info) ∷ sm) = elim (Bool-cases (same c a)) [
  | inl e ↦
      (let c_a : c ≡ a = (same_iff c a).0 e in
        rw (e, c_a, remove_lem a b sm)
          (elim (Bool-cases (same a b)) [ inl s ↦ rw s refl | inr s ↦ rw s refl ]))
  | inr e ↦ elim (Bool-cases (same c b)) [
    | inl s ↦ (let apart = same_apart a b c e s in rw (e, s, apart) refl)
    | inr s ↦ rw (e, s, remove_lem a b sm) refl
  ]
]

remove-IsOnce : (a : Account) (sm : SessionManager) → IsOnce sm → IsOnce (remove a sm)
unfolding remove
remove-IsOnce a [] h = tt
remove-IsOnce a ((c, info) ∷ sm) (free, once) = elim (Bool-cases (same c a)) [
  | inl e ↦ rw e (remove-IsOnce a sm once)
  | inr e ↦ rw e (
    remove_lem a c sm
        ∙ rw (free) (elim (Bool-cases (same a c)) [ inl s ↦ rw s refl | inr s ↦ rw s refl ]),
    remove-IsOnce a sm once,
  )
]

clean_absent :
    (b : Account) (now ttl : ℤ) (sm : SessionManager)
    → IsOnce sm
    → load b sm ≡ none
    → load b (clean_expired now ttl sm) ≡ none
unfolding fresh_part
clean_absent b now ttl sm once h = load-clean_expired b now ttl sm once ∙ rw h refl

clean_expired-IsOnce :
    (now ttl : ℤ) (sm : SessionManager) → IsOnce sm → IsOnce (clean_expired now ttl sm)
unfolding clean_expired
clean_expired-IsOnce now ttl [] h = tt
clean_expired-IsOnce now ttl ((c, info) ∷ sm) (free, once) =
    elim (Bool-cases (expired now ttl info)) [
      | inl e ↦ rw e (clean_expired-IsOnce now ttl sm once)
      | inr e ↦ rw e (clean_absent c now ttl sm once free, clean_expired-IsOnce now ttl sm once)
    ]

run_calls-IsOnce : (calls : List SessionCall) → IsOnce (run_calls calls)
unfolding run_calls run_call new_session_manager store store_info
run_calls-IsOnce [] = tt
run_calls-IsOnce (stores account key now ∷ earlier) =
    (load-remove account (run_calls earlier), remove-IsOnce account _ (run_calls-IsOnce earlier))
run_calls-IsOnce (removes account ∷ earlier) = remove-IsOnce account _ (run_calls-IsOnce earlier)
run_calls-IsOnce (cleans now ttl ∷ earlier) =
    clean_expired-IsOnce now ttl _ (run_calls-IsOnce earlier)

load-run_calls :
    (calls : List SessionCall) (b : Account) → load b (run_calls calls) ≡ promised calls b
unfolding run_calls run_call promised load new_session_manager store store_info
load-run_calls [] b = refl
load-run_calls (stores account key now ∷ earlier) b = elim (Bool-cases (same account b)) [
  | inl s ↦ rw s refl
  | inr s ↦ rw s (remove_lem account b (run_calls earlier) ∙ rw s (load-run_calls earlier b))
]
load-run_calls (removes account ∷ earlier) b =
    remove_lem account b (run_calls earlier) ∙ rw (load-run_calls earlier b) refl
load-run_calls (cleans now ttl ∷ earlier) b =
    load-clean_expired b now ttl (run_calls earlier) (run_calls-IsOnce earlier)
    ∙ ap (fresh_part now ttl) (load-run_calls earlier b)

-- Whether a key fits the session that is promised.
abbrev pub promised_valid : List SessionCall → Account → SessionKey → Bool → Bool
promised_valid calls b key show_licence = elim (promised calls b) [
  | none ↦ false
  | some info ↦ key_matches info.session_key key show_licence
]

-- After any calls that store, remove and clean up, the session found for an account and the answer
-- to a key are those of the abstract table that the calls describe, in which each account has what
-- the latest call that matters to it has left.
pub run_calls_lem :
    (calls : List SessionCall) (b : Account) (key : SessionKey) (show_licence : Bool)
    → (load b (run_calls calls) ≡ promised calls b)
      × (validate b key show_licence (run_calls calls) ≡ promised_valid calls b key show_licence)
unfolding validate
run_calls_lem calls b key show_licence =
    (load-run_calls calls b, rw (validate, load-run_calls calls b) refl)
