-- ===== src/Relay/Handler/Isolation.antt =====
-- internal/gslistener: no two connections of game servers hold the same id.
use mathlib.Core.Path.{fun_ext, subst}
use la2go.Prelude.{
  ◌⊎◌, ℕ, ◌≡◌, ◌≢◌, refl, ap, sym, ◌∙◌, inl, inr, List, true, Option, some, ◌==◌, ==_iff,
  Bool-cases, arith,
}
use la2go.Login.Session.{Account, SessionManager}
use la2go.Registry.Info.{GameServerInfo}
use la2go.Registry.Table.{GameServerTable, get_by_id}
use la2go.Registry.Table.Search.{Consistent}
use la2go.Relay.Connection.{
  GsConnection, GsConnectionState, gs_connected, gs_bf_connected, gs_authed,
}
use la2go.Relay.Handler.{Relay}
use la2go.Relay.Handler.Steps.{IsOpen}
use la2go.Relay.Handler.Network.{Network, seat, settle, Holds, IsExclusive}

pub seat_self :
    (n : ℕ) (entry : Option GsConnection) (conns : ℕ → Option GsConnection)
    → seat n entry conns n ≡ entry
seat_self n entry conns = let e : (n == n) ≡ true = ground arith in rw e refl

pub seat-seat :
    (n : ℕ) (a b : Option GsConnection) (conns : ℕ → Option GsConnection)
    → seat n a (seat n b conns) ≡ seat n a conns
seat-seat n a b conns =
    fun_ext λ i. elim (Bool-cases (i == n)) [ inl e ↦ rw e refl | inr e ↦ rw e refl ]

-- What a seat holds: the new entry, or what another number held.
seat-some :
    (n m : ℕ) (entry : Option GsConnection) (conns : ℕ → Option GsConnection) (conn : GsConnection)
    → seat n entry conns m ≡ some conn
    → ((m ≡ n) × (entry ≡ some conn)) ⊎ ((m ≢ n) × (conns m ≡ some conn))
seat-some n m entry conns conn h = elim (Bool-cases (m == n)) [
  | inl e ↦ inl ((==_iff m n).0 e, rw e at h)
  | inr e ↦ inr (λ s. cc ((==_iff m n).1 s), rw e at h)
]

Holds-frame :
    (t t' : GameServerTable) (conn : GsConnection)
    → ((i : ℕ) → conn.info ≡ some i → get_by_id i t' ≡ get_by_id i t)
    → Holds t conn
    → Holds t' conn
Holds-frame t t' conn keep (idle, held) =
    (idle, λ s. let (id, info, e, there, on) = held s in (id, info, e, keep id e ∙ there, on))

some-injective : {a b : GsConnection} → some a ≡ some b → a ≡ b
some-injective e = cc

-- The entry of a connection that has an id.
pub held_entry :
    (t : GameServerTable) (b : GsConnection) (i : ℕ)
    → Holds t b
    → b.info ≡ some i
    → (info : GameServerInfo) × (get_by_id i t ≡ some info) × (info.is_authed ≡ true)
held_entry t b i (idle, held) e = by_state b.state refl
  where
    by_state :
        (s : GsConnectionState)
        → b.state ≡ s
        → (info : GameServerInfo) × (get_by_id i t ≡ some info) × (info.is_authed ≡ true)
    by_state gs_connected s = absurd (cc (sym e ∙ idle (λ a. cc)))
    by_state gs_bf_connected s = absurd (cc (sym e ∙ idle (λ a. cc)))
    by_state gs_authed s =
        let (id, info, ie, there, on) = held s in
        let same : id ≡ i = cc in
        (info, subst (λ (k : ℕ). get_by_id k t ≡ some info) same there, on)

module _ (net : Network) (x : IsExclusive net) (n : ℕ) where
  -- A connection gets a new state, with a table that is unchanged at the ids of the others.
  pub settle-IsExclusive :
      (entry : Option GsConnection) (st : Relay)
      → Consistent st.gs_table
      → ((m : ℕ) (b : GsConnection) (i : ℕ)
          → m ≢ n
          → net.conns m ≡ some b
          → b.info ≡ some i
          → get_by_id i st.gs_table ≡ get_by_id i net.gs_table)
      → ((conn : GsConnection) → entry ≡ some conn → Holds st.gs_table conn)
      → ((conn : GsConnection) (m : ℕ) (b : GsConnection) (i : ℕ)
          → entry ≡ some conn
          → conn.info ≡ some i
          → m ≢ n
          → net.conns m ≡ some b
          → b.info ≢ some i)
      → IsExclusive (settle n entry st net)
  settle-IsExclusive entry st c keep own fresh = record {
    consistent = c;
    holds = λ m conn h. elim (seat-some n m entry net.conns conn h) [
      | inl (e, new) ↦ own conn new
      | inr (e, old) ↦
          Holds-frame net.gs_table st.gs_table conn (λ i. keep m conn i e old) (x.holds m conn old)
    ];
    apart = λ p q a b i j d ha hb ia jb. elim (seat-some n p entry net.conns a ha) [
      | inl (pn, new) ↦ elim (seat-some n q entry net.conns b hb) [
        | inl (qn, new') ↦ absurd (d (pn ∙ sym qn))
        | inr (qn, old) ↦ λ ij. fresh a q b i new ia qn old (jb ∙ ap some (sym ij))
      ]
      | inr (pn, old) ↦ elim (seat-some n q entry net.conns b hb) [
        | inl (qn, new) ↦ λ ij. fresh b p a j new jb pn old (ia ∙ ap some ij)
        | inr (qn, old') ↦ x.apart p q a b i j d old old' ia jb
      ]
    ];
  }

  -- The connection stays, with the state that is left.
  pub keep-IsExclusive :
      (st : Relay)
      → Consistent st.gs_table
      → ((m : ℕ) (b : GsConnection) (i : ℕ)
          → m ≢ n
          → net.conns m ≡ some b
          → b.info ≡ some i
          → (get_by_id i st.gs_table ≡ get_by_id i net.gs_table) × (st.conn.info ≢ some i))
      → Holds st.gs_table st.conn
      → IsExclusive (settle n (some st.conn) st net)
  keep-IsExclusive st c others own =
      settle-IsExclusive (some st.conn) st c (λ m b i d h e. (others m b i d h e).0)
        (λ conn e. subst (λ (a : GsConnection). Holds st.gs_table a) (some-injective e) own)
        (λ conn m b i e ic d h ib.
          (others m b i d h ib).1
            (subst (λ (a : GsConnection). a.info ≡ some i) (sym (some-injective e)) ic))

  module _ (conn : GsConnection) (here : net.conns n ≡ some conn) where
    pub own_id :
        (m : ℕ) (b : GsConnection) (i : ℕ)
        → m ≢ n
        → net.conns m ≡ some b
        → b.info ≡ some i
        → conn.info ≢ some i
    own_id m b i d h ib ic = x.apart m n b conn i i d h here ib ic refl

    pub held : Holds net.gs_table conn
    held = x.holds n conn here

    -- Neither the table nor the id of the connection changes.
    pub quiet-IsExclusive :
        (accounts : List Account) (sm : SessionManager)
        → IsExclusive (
            settle n
              (some (record conn { accounts = accounts }))
              (record {
                conn = record conn { accounts = accounts };
                gs_table = net.gs_table;
                session_manager = sm;
              })
              net)
    quiet-IsExclusive accounts sm =
        keep-IsExclusive
          (record {
            conn = record conn { accounts = accounts };
            gs_table = net.gs_table;
            session_manager = sm;
          })
          x.consistent (λ m b i d h e. (refl, own_id m b i d h e)) held

    -- An id that is open to a new game server is nobody's.
    pub open_id :
        (id : ℕ) (hex_id : List ℕ) (m : ℕ) (b : GsConnection) (i : ℕ)
        → IsOpen hex_id (get_by_id id net.gs_table)
        → net.conns m ≡ some b
        → b.info ≡ some i
        → i ≢ id
    open_id id hex_id m b i free h ib same =
        let (info, there, on) = held_entry net.gs_table b i (x.holds m b h) ib in
        let e : get_by_id id net.gs_table ≡ some info =
          subst (λ (k : ℕ). get_by_id k net.gs_table ≡ some info) same there in
        let (_, off) = subst (λ (o : Option GameServerInfo). IsOpen hex_id o) e free in
        cc (sym on ∙ off)
