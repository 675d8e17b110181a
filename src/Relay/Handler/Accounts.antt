-- ===== src/Relay/Handler/Accounts.antt =====
-- internal/gslistener/connection.go: which accounts a connection has after players entered or left.
use la2go.Prelude.{
  ◌≡◌, refl, sym, ap, ◌∙◌, inl, inr, List, [], ◌∷◌, Bool, true, false, ◌||◌, ◌&&◌, not, same,
  same_iff, Bool-cases, arith,
}
use la2go.Login.Session.{Account}
use la2go.Relay.Connection.{
  GsConnection, member, without, has_account, add_account, remove_account, add_accounts,
}

or-true : (x y : Bool) → (y ≡ true → x ≡ true) → x ≡ (x || y)
or-true true y h = refl
or-true false true h = h refl
or-true false false h = refl

has_account-add_account :
    (x a : Account) (conn : GsConnection)
    → has_account x (add_account a conn) ≡ (has_account x conn || same a x)
unfolding has_account add_account member
has_account-add_account x a conn = elim (Bool-cases (member a conn.accounts)) [
  | inl e ↦ rw e (
      or-true _ _
        (λ s. ap (λ (b : Account). member b conn.accounts) (sym ((same_iff a x).0 s)) ∙ e))
  | inr e ↦ rw e (ground arith)
]

-- After players entered, a connection has their accounts and those that it had.
pub has_account-add_accounts :
    (x : Account) (accounts : List Account) (conn : GsConnection)
    → has_account x (add_accounts accounts conn) ≡ (has_account x conn || member x accounts)
unfolding add_accounts member
has_account-add_accounts x [] conn = ground arith
has_account-add_accounts x (a ∷ accounts) conn =
    has_account-add_accounts x accounts (add_account a conn)
    ∙ (rw (has_account-add_account x a conn) (ground arith))

member-without :
    (x a : Account) (accounts : List Account)
    → member x (without a accounts) ≡ (member x accounts && not (same x a))
unfolding member without
member-without x a [] = refl
member-without x a (b ∷ accounts) = elim (Bool-cases (same b a)) [
  | inl e ↦ elim (Bool-cases (same b x)) [
    | inl f ↦
        let is : same x a ≡ true = rw (sym ((same_iff b x).0 f)) e in
        rw (e, f, is, member-without x a accounts, is) (ground arith)
    | inr f ↦ rw (e, f, member-without x a accounts) refl
  ]
  | inr e ↦ elim (Bool-cases (same b x)) [
    | inl f ↦
        let other : same x a ≡ false = rw (sym ((same_iff b x).0 f)) e in rw (e, f, other) refl
    | inr f ↦ rw (e, f, member-without x a accounts) refl
  ]
]

-- After a player left, a connection has the accounts that it had, but for that one.
pub has_account-remove_account :
    (x a : Account) (conn : GsConnection)
    → has_account x (remove_account a conn) ≡ (has_account x conn && not (same x a))
unfolding has_account remove_account
has_account-remove_account x a conn = member-without x a conn.accounts
