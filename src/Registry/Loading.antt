-- ===== src/Registry/Loading.antt =====
-- internal/gameserver/table.go: `LoadFromDB` and `hexStringToBytes`. The answer of the database is
-- a parameter, as is `fmt.Sscanf` with `%02x` on two characters. Ids in the database are not
-- negative.
use la2go.Prelude.{
  ℕ, ◌%◌, List, [], ◌∷◌, Bool, if◌then◌else◌, Option, none, some, length, ◌==◌, Error, Result-cases,
  inl, inr, Result, ok, err, panic, read_failed, invalid_length,
}
use la2go.Registry.Info.{new_game_server_info}
use la2go.Registry.Table.{GameServerTable, mark_id_used, put}
use la2go.Registry.Table.Invariant.{entered}
use la2go.Registry.Table.Search.{Consistent}

abbrev pub HexByte : Type 0
HexByte = ℕ → ℕ → Option ℕ

-- The loop of `hexStringToBytes`.
unfoldable pub hex_pairs : HexByte → List ℕ → Result (List ℕ)
hex_pairs parse [] = ok []
hex_pairs parse (a ∷ []) = err invalid_length
hex_pairs parse (a ∷ b ∷ s) =
    let rest = hex_pairs parse s in
    elim (parse a b) [
      | none ↦ err read_failed
      | some byte ↦ elim rest [ ok bytes ↦ ok (byte ∷ bytes) | err e ↦ err e | panic ↦ panic ]
    ]

unfoldable pub hex_string_to_bytes : HexByte → List ℕ → Result (List ℕ)
hex_string_to_bytes parse s = if length s % 2 == 0 then hex_pairs parse s else err invalid_length

pub record Row : Type 0 where
  pub server_id : ℕ
  pub hexid : List ℕ

-- The rows in order, `none` for one that `Scan` refuses, and whether the iteration ends well.
pub record Rows : Type 0 where
  pub rows : List (Option Row)
  pub complete : Bool

-- The loop over the rows: the table as far as it was filled, and the error.
unfoldable pub load_rows :
    HexByte → Bool → List (Option Row) → GameServerTable → GameServerTable × Option Error
load_rows parse complete [] t = (t, if complete then none else some read_failed)
load_rows parse complete (none ∷ rows) t = (t, some read_failed)
load_rows parse complete (some row ∷ rows) t = elim (hex_string_to_bytes parse row.hexid) [
  | ok hex_id ↦ load_rows parse complete rows (
      mark_id_used row.server_id
        (put row.server_id (some (new_game_server_info row.server_id hex_id)) t))
  | err e ↦ (t, some e)
  | panic ↦ (t, some read_failed)
]

-- `none` where the database is nil or the query fails.
unfoldable pub load_from_db :
    HexByte → Option Rows → GameServerTable → GameServerTable × Option Error
load_from_db parse none t = (t, some read_failed)
load_from_db parse (some answer) t = load_rows parse answer.complete answer.rows t

-- Loading, whether it ends well or stops at an error, keeps the bitmap in agreement with the map.
load_rows-Consistent :
    (parse : HexByte) (complete : Bool) (rows : List (Option Row)) (t : GameServerTable)
    → Consistent t
    → Consistent (load_rows parse complete rows t).0
unfolding load_rows
load_rows-Consistent parse complete [] t c = c
load_rows-Consistent parse complete (none ∷ rows) t c = c
load_rows-Consistent parse complete (some row ∷ rows) t c =
    elim (Result-cases (hex_string_to_bytes parse row.hexid)) [
      | inl (hex_id, e) ↦
          rw (e, load_rows)
            (load_rows-Consistent parse complete rows _ (entered t row.server_id _ c))
      | inr (inl (_, e)) ↦ rw (e, load_rows) c
      | inr (inr e) ↦ rw (e, load_rows) c
    ]

-- Loading from the database, whether it ends well or stops at an error, keeps the bitmap in
-- agreement with the map.
pub load_from_db-Consistent :
    (parse : HexByte) (answer : Option Rows) (t : GameServerTable)
    → Consistent t
    → Consistent (load_from_db parse answer t).0
unfolding load_from_db
load_from_db-Consistent parse none t c = c
load_from_db-Consistent parse (some answer) t c =
    load_rows-Consistent parse answer.complete answer.rows t c
