-- ===== src/Relay/Handler/Table.antt =====
-- internal/gslistener/handler.go: what a change of the info of one game server does to the table.
use la2go.Prelude.{
  ℕ, ◌≡◌, ◌≢◌, refl, ap, sym, ◌∙◌, inl, inr, true, false, if◌then◌else◌, Option, none, some, ◌==◌,
  Option-cases, Bool-cases, arith, min, ◌≤◌, ==_iff,
}
use la2go.Registry.Info.{GameServerInfo}
use la2go.Registry.Table.{GameServerTable, get_by_id, put, mark_id_used, first_available_id}
use la2go.Registry.Table.Search.{
  Consistent, is_free, unregistered, first_available_id_lem, first_free-true, is_none-none,
}
use la2go.Relay.Handler.{update_info}

get_by_id-put :
    (t : GameServerTable) (id i : ℕ) (entry : Option GameServerInfo)
    → get_by_id i (put id entry t) ≡ (if i == id then entry else get_by_id i t)
unfolding get_by_id put
get_by_id-put t id i entry = refl

get_by_id-mark_id_used :
    (t : GameServerTable) (id i : ℕ) → get_by_id i (mark_id_used id t) ≡ get_by_id i t
unfolding get_by_id mark_id_used
get_by_id-mark_id_used t id i = ground arith

-- A new entry, and the others.
pub get_by_id-enter_self :
    (t : GameServerTable) (id : ℕ) (info : GameServerInfo)
    → get_by_id id (mark_id_used id (put id (some info) t)) ≡ some info
get_by_id-enter_self t id info =
    let same : (id == id) ≡ true = ground arith in
    get_by_id-mark_id_used _ id id ∙ (get_by_id-put t id id (some info) ∙ rw same refl)

pub get_by_id-enter_other :
    (t : GameServerTable) (id i : ℕ) (info : GameServerInfo)
    → i ≢ id
    → get_by_id i (mark_id_used id (put id (some info) t)) ≡ get_by_id i t
get_by_id-enter_other t id i info h =
    let other : (i == id) ≡ false = ground arith in
    get_by_id-mark_id_used _ id i ∙ (get_by_id-put t id i (some info) ∙ rw other refl)

-- The entry that was changed.
pub get_by_id-update_self :
    (t : GameServerTable) (id : ℕ) (change : GameServerInfo → GameServerInfo)
    {info : GameServerInfo}
    → get_by_id id t ≡ some info
    → get_by_id id (update_info id change t) ≡ some (change info)
unfolding update_info
get_by_id-update_self t id change {info} e =
    let same : (id == id) ≡ true = ground arith in
    rw (update_info, e) (get_by_id-put t id id (some (change info)) ∙ rw same refl)

-- The others.
pub get_by_id-update_other :
    (t : GameServerTable) (id i : ℕ) (change : GameServerInfo → GameServerInfo)
    → i ≢ id
    → get_by_id i (update_info id change t) ≡ get_by_id i t
unfolding update_info
get_by_id-update_other t id i change h =
    let other : (i == id) ≡ false = ground arith in
    elim (Option-cases (get_by_id id t)) [
      | inl e ↦ rw (update_info, e) refl
      | inr (info, e) ↦
          rw (update_info, e) (get_by_id-put t id i (some (change info)) ∙ rw other refl)
    ]

unregistered-put-some :
    (t : GameServerTable) (id i : ℕ) (before after : GameServerInfo)
    → get_by_id id t ≡ some before
    → unregistered (put id (some after) t) i ≡ unregistered t i
unfolding unregistered get_by_id put
unregistered-put-some t id i before after e = elim (Bool-cases (i == id)) [
  | inl same ↦
      let there : t.servers i ≡ some before = ap t.servers ((==_iff i id).0 same) ∙ e in
      rw (same, there) refl
  | inr other ↦ rw other refl
]

is_free-put :
    (t : GameServerTable) (id i : ℕ) (entry : Option GameServerInfo)
    → is_free (put id entry t) i ≡ is_free t i
unfolding is_free put
is_free-put t id i entry = refl

-- A change of an entry leaves the bitmap in agreement.
pub update_info-Consistent :
    (t : GameServerTable) (id : ℕ) (change : GameServerInfo → GameServerInfo)
    → Consistent t
    → Consistent (update_info id change t)
unfolding update_info
update_info-Consistent t id change c = elim (Option-cases (get_by_id id t)) [
  | inl e ↦ rw (update_info, e) c
  | inr (info, e) ↦
      rw (update_info, e)
        (record {
          agree = λ i p q.
              is_free-put t id i (some (change info))
              ∙ (c.agree i p q ∙ sym (unregistered-put-some t id i info (change info) e));
        })
]

-- The id that a search of the bitmap gives is one that no game server has.
pub first_available_id-none :
    (t : GameServerTable) (max_id : ℕ)
    → Consistent t
    → 1 ≤ max_id
    → (first_available_id max_id t == 0) ≡ false
    → get_by_id (first_available_id max_id t) t ≡ none
first_available_id-none t max_id c h found =
    let e = first_available_id_lem t max_id c h in
    rw e (
      is_none-none _ (
        unfold unregistered in first_free-true (unregistered t) 1 (min max_id 127) (rw e at found)))
