-- ===== src/Registry/Table.antt =====
-- internal/gameserver/table.go: `GameServerTable`. The map is a function, and each uint64 of the
-- bitmap is the function of its bits. Ids and `maxID` are not negative: they come from a byte, from
-- the table or from a constant.
pub mod Search
pub mod Invariant
use la2go.Prelude.{
  ℕ, zero, suc, ◌+◌, ◌-◌, ◌≡◌, min, List, Bool, true, false, not, ◌&&◌, if◌then◌else◌, Option, none,
  some, ltb, leb, ◌==◌, same,
}
use la2go.Registry.Info.{GameServerInfo, set_id}

abbrev pub Word64 : Type 0
Word64 = ℕ → Bool

pub record GameServerTable : Type 0 where
  pub servers : ℕ → Option GameServerInfo
  pub free_low : Word64
  pub free_high : Word64

unfoldable pub new_game_server_table : GameServerTable
new_game_server_table = record {
  servers = λ id. none;
  free_low = λ i. ltb i 64;
  free_high = λ i. ltb i 64;
}

-- `w &^= 1 << k` and `w |= 1 << k`: a shift by 64 or more gives 0.
unfoldable pub clear_bit : ℕ → Word64 → Word64
clear_bit k w i = if i == k then false else w i

unfoldable pub set_bit : ℕ → Word64 → Word64
set_bit k w i = if (i == k) && ltb k 64 then true else w i

unfoldable pub mark_id_used : ℕ → GameServerTable → GameServerTable
mark_id_used id t =
    if ltb id 64
    then record t { free_low = clear_bit id t.free_low }
    else record t { free_high = clear_bit (id - 64) t.free_high }

unfoldable pub mark_id_free : ℕ → GameServerTable → GameServerTable
mark_id_free id t =
    if ltb id 64
    then record t { free_low = set_bit id t.free_low }
    else record t { free_high = set_bit (id - 64) t.free_high }

-- `servers[id] = info` and `delete(servers, id)`.
unfoldable pub put : ℕ → Option GameServerInfo → GameServerTable → GameServerTable
put id entry t = record t { servers = λ i. if i == id then entry else t.servers i }

unfoldable pub get_by_id : ℕ → GameServerTable → Option GameServerInfo
get_by_id id t = t.servers id

abbrev pub is_none {ℓ} : {A : Type ℓ} → Option A → Bool
is_none none = true
is_none (some a) = false

unfoldable pub register : ℕ → GameServerInfo → GameServerTable → Bool × GameServerTable
register id info t =
    if is_none (get_by_id id t) then (true, mark_id_used id (put id (some info) t)) else (false, t)

-- `for id := from; ...; id++`: the first of `left` ids whose bit is set, or 0.
unfoldable pub first_free : Word64 → ℕ → ℕ → ℕ
first_free bits from zero = 0
first_free bits from (suc left) =
    let rest = first_free bits (suc from) left in if bits from then from else rest

unfoldable pub first_available_id : ℕ → GameServerTable → ℕ
first_available_id max_id t =
    let low = first_free t.free_low 1 63 in
    if leb 1 max_id && leb max_id 63
    then first_free t.free_low 1 max_id
    else if not (low == 0)
    then low
    else first_free (λ id. t.free_high (id - 64)) 64 (min max_id 127 - 63)

-- The id, 0 where there is none, and the registered info with it.
unfoldable pub register_with_first_available_id :
    GameServerInfo → ℕ → GameServerTable → ℕ × GameServerTable
register_with_first_available_id info max_id t =
    let id = first_available_id max_id t in
    if id == 0 then (0, t) else (id, mark_id_used id (put id (some (set_id id info)) t))

unfoldable pub validate_hex_id : ℕ → List ℕ → GameServerTable → Bool
validate_hex_id id hex_id t = elim (get_by_id id t) [
  | none ↦ false
  | some info ↦ same info.hex_id hex_id
]

unfoldable pub unregister : ℕ → GameServerTable → GameServerTable
unregister id t = mark_id_free id (put id none t)
