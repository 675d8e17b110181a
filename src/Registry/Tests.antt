-- ===== src/Registry/Tests.antt =====
-- Runs of the table of game servers.
use la2go.Prelude.{ℕ, ◌+◌, ◌≡◌, refl, [], ◌∷◌, Option, none, some, min, arith, true}
use la2go.Registry.Info.{GameServerInfo, new_game_server_info}
use la2go.Registry.Table.{
  GameServerTable, new_game_server_table, register, first_available_id, first_free, get_by_id,
  clear_bit, mark_id_used, put,
}
use la2go.Registry.Table.Search.{Consistent, first_available_id_lem, unregistered}
use la2go.Registry.Table.Invariant.{Reachable, Change, Reachable-Consistent}
use la2go.Registry.Loading.{Rows, load_from_db, load_from_db-Consistent}

abbrev bartz : GameServerInfo
bartz = new_game_server_info 1 (1 ∷ 2 ∷ [])

abbrev one_server : GameServerTable
one_server = (register 1 bartz new_game_server_table).1

one_server-Reachable : Reachable one_server
one_server-Reachable =
    Reachable.later Reachable.new (Change.registers new_game_server_table 1 bartz)

Reachable-Consistent_example : Consistent one_server
Reachable-Consistent_example = Reachable-Consistent one_server one_server-Reachable

free_two : get_by_id 2 one_server ≡ none
unfolding get_by_id register new_game_server_table put mark_id_used
free_two = refl

first_available_id_lem_example :
    first_available_id 127 one_server ≡ first_free (unregistered one_server) 1 (min 127 127)
first_available_id_lem_example =
    first_available_id_lem one_server 127 (Reachable-Consistent one_server one_server-Reachable)
      (omega arith)

abbrev stored : Rows
stored = record {
  rows = some (record { server_id = 3; hexid = 48 ∷ 49 ∷ [] }) ∷ none ∷ [];
  complete = true;
}

abbrev digit_sum : ℕ → ℕ → Option ℕ
digit_sum a b = some (a + b)

load_from_db-Consistent_example : Consistent (load_from_db digit_sum (some stored) one_server).0
load_from_db-Consistent_example =
    load_from_db-Consistent digit_sum (some stored) one_server
      (Reachable-Consistent one_server one_server-Reachable)

-- A limit of 0 is not respected: the search runs over the ids up to 63.
limit_zero : first_available_id 0 one_server ≡ 2
unfolding first_available_id first_free get_by_id register new_game_server_table put mark_id_used
    clear_bit
limit_zero = refl
