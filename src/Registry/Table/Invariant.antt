-- ===== src/Registry/Table/Invariant.antt =====
-- The bitmap of free ids agrees with the map after every operation of the table
-- (internal/gameserver/table.go).
use la2go.Prelude.{
  ℕ, ◌≤◌, ◌≡◌, refl, ap, sym, ◌∙◌, inl, inr, Bool, true, false, if◌then◌else◌, Option, none, some,
  ◌==◌, Bool-cases, arith,
}
use la2go.Registry.Info.{GameServerInfo}
use la2go.Registry.Table.{
  GameServerTable, is_none, new_game_server_table, clear_bit, set_bit, mark_id_used, mark_id_free,
  put, get_by_id, register, first_available_id, register_with_first_available_id, unregister,
}
use la2go.Registry.Table.Search.{is_free, unregistered, Consistent}

-- What the marks and the map answer at any id.
is_free-mark_id_used :
    (t : GameServerTable) (id i : ℕ)
    → is_free (mark_id_used id t) i ≡ (if i == id then false else is_free t i)
unfolding is_free mark_id_used clear_bit
is_free-mark_id_used t id i = ground arith

is_free-mark_id_free :
    (t : GameServerTable) (id i : ℕ)
    → i ≤ 127
    → is_free (mark_id_free id t) i ≡ (if i == id then true else is_free t i)
unfolding is_free mark_id_free set_bit
is_free-mark_id_free t id i h = ground arith

is_free-put :
    (t : GameServerTable) (id i : ℕ) (entry : Option GameServerInfo)
    → is_free (put id entry t) i ≡ is_free t i
unfolding is_free put
is_free-put t id i entry = refl

unregistered-put :
    (t : GameServerTable) (id i : ℕ) (entry : Option GameServerInfo)
    → unregistered (put id entry t) i ≡ (if i == id then is_none entry else unregistered t i)
unfolding unregistered get_by_id put
unregistered-put t id i entry = ground arith

mark_used-unregistered :
    (t : GameServerTable) (id i : ℕ) → unregistered (mark_id_used id t) i ≡ unregistered t i
unfolding unregistered get_by_id mark_id_used
mark_used-unregistered t id i = ground arith

mark_free-unregistered :
    (t : GameServerTable) (id i : ℕ) → unregistered (mark_id_free id t) i ≡ unregistered t i
unfolding unregistered get_by_id mark_id_free
mark_free-unregistered t id i = ground arith

pub entered :
    (t : GameServerTable) (id : ℕ) (info : GameServerInfo)
    → Consistent t
    → Consistent (mark_id_used id (put id (some info) t))
entered t id info c = record {
  agree = λ i p q.
      is_free-mark_id_used (put id (some info) t) id i
      ∙ (ap (λ (b : Bool). if i == id then false else b)
            (is_free-put t id i (some info) ∙ c.agree i p q)
          ∙ sym (
              mark_used-unregistered (put id (some info) t) id i
              ∙ unregistered-put t id i (some info)));
}

removed : (t : GameServerTable) (id : ℕ) → Consistent t → Consistent (unregister id t)
unfolding unregister
removed t id c = record {
  agree = λ i p q.
      is_free-mark_id_free (put id none t) id i q
      ∙ (ap (λ (b : Bool). if i == id then true else b) (is_free-put t id i none ∙ c.agree i p q)
          ∙ sym (mark_free-unregistered (put id none t) id i ∙ unregistered-put t id i none));
}

registered :
    (t : GameServerTable) (id : ℕ) (info : GameServerInfo)
    → Consistent t
    → Consistent (register id info t).1
unfolding register
registered t id info c = elim (Bool-cases (is_none (get_by_id id t))) [
  | inl free ↦ rw free (entered t id info c)
  | inr taken ↦ rw taken c
]

first_registered :
    (t : GameServerTable) (max_id : ℕ) (info : GameServerInfo)
    → Consistent t
    → Consistent (register_with_first_available_id info max_id t).1
unfolding register_with_first_available_id
first_registered t max_id info c = elim (Bool-cases (first_available_id max_id t == 0)) [
  | inl full ↦ rw full c
  | inr found ↦ rw found (entered t (first_available_id max_id t) _ c)
]

new-Consistent : Consistent new_game_server_table
unfolding new_game_server_table is_free unregistered get_by_id
new-Consistent = record { agree = λ i p q. ground arith }

-- The operations that change the table.
pub data Change : GameServerTable → GameServerTable → Type 0 where
  registers :
      (t : GameServerTable) (id : ℕ) (info : GameServerInfo) → Change t (register id info t).1
  registers_first :
      (t : GameServerTable) (max_id : ℕ) (info : GameServerInfo)
      → Change t (register_with_first_available_id info max_id t).1
  removes : (t : GameServerTable) (id : ℕ) → Change t (unregister id t)

-- The tables that any sequence of operations reaches.
pub data Reachable : GameServerTable → Type 0 where
  new : Reachable new_game_server_table
  later : {t t' : GameServerTable} → Reachable t → Change t t' → Reachable t'

Change-Consistent : {t t' : GameServerTable} → Change t t' → Consistent t → Consistent t'
Change-Consistent (registers t id info) c = registered t id info c
Change-Consistent (registers_first t max_id info) c = first_registered t max_id info c
Change-Consistent (removes t id) c = removed t id c

-- In every table that registrations and removals reach, the bitmap tells of each id from 1 to 127
-- whether the map has no entry for it.
pub Reachable-Consistent : (t : GameServerTable) → Reachable t → Consistent t
Reachable-Consistent t new = new-Consistent
Reachable-Consistent t (later r change) = Change-Consistent change (Reachable-Consistent _ r)
