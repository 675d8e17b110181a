-- ===== src/Spawn/Loading.antt =====
-- LoadSpawns, GetSpawn, SpawnCount and SpawnAll of internal/spawn/manager.go. The map from ids to
-- spawns has the bit patterns of the ids as keys, and its order is that in which `Range` visits it.
pub mod Full
use la2go.Prelude.{
  ℕ, zero, suc, ◌^◌, List, [], ◌∷◌, Bool, Option, none, some, Error, Result, ok, err, panic, length,
  ◌>>=◌, read_failed,
}
use la2go.Prelude.Int.{ℤ, pos, pos_part, word}
use la2go.Prelude.Assoc.{lookup, insert}
use la2go.Ai.TickManager.{wrap_int32}
use la2go.Spawn.Manager.{Manager, do_spawn}

-- The manager with the spawns it has loaded.
pub record Loaded : Type 0 where
  pub manager : Manager
  pub loaded : List (ℕ × ℕ)
  pub spawn_count : ℤ

abbrev pub spawn_key : Manager → ℕ → ℕ
spawn_key m p = word (2 ^ 64) (m.spawns p).spawn_id

unfoldable pub store_spawns : Manager → List ℕ → List (ℕ × ℕ) → List (ℕ × ℕ)
store_spawns m [] loaded = loaded
store_spawns m (p ∷ ps) loaded = store_spawns m ps (insert (spawn_key m p) p loaded)

-- The repository answers with the spawns, or `none` for an error.
unfoldable pub load_spawns : Option (List ℕ) → Loaded → Result (Unit {0}) × Loaded
load_spawns none l = (err read_failed, l)
load_spawns (some ps) l = (
  ok tt,
  record l {
    loaded = store_spawns l.manager ps l.loaded;
    spawn_count = wrap_int32 (pos (length ps));
  },
)

unfoldable pub get_spawn : ℤ → Loaded → Option ℕ
get_spawn id l = lookup (word (2 ^ 64) id) l.loaded

-- What SpawnAll has done so far.
pub record Run : Type 0 where
  pub manager : Manager
  pub spawned : ℕ
  pub first_error : Option Error

abbrev pub note_error : Error → Option Error → Option Error
note_error e none = some e
note_error e (some first) = some first

-- `for range` over one spawn, left at the first error.
unfoldable pub spawn_times : (ℤ → Bool) → ℕ → ℕ → Run → Result Run
spawn_times has_template zero p run = ok run
spawn_times has_template (suc n) p run =
    let (result, m) = do_spawn has_template p run.manager in
    elim result [
      | ok a ↦ spawn_times has_template n p (record run { manager = m; spawned = suc run.spawned })
      | err e ↦ ok (record run { manager = m; first_error = note_error e run.first_error })
      | panic ↦ panic
    ]

unfoldable pub spawn_each : (ℤ → Bool) → List (ℕ × ℕ) → Run → Result Run
spawn_each has_template [] run = ok run
spawn_each has_template ((id, p) ∷ rest) run =
    spawn_times has_template (pos_part (run.manager.spawns p).maximum_count) p run
    >>= spawn_each has_template rest

-- The error that SpawnAll returns, if any, and what it leaves.
unfoldable pub spawn_all : (ℤ → Bool) → Loaded → Result (Option Error × Loaded)
spawn_all has_template l =
    spawn_each has_template l.loaded
      (record { manager = l.manager; spawned = 0; first_error = none })
    >>= (λ run. ok (run.first_error, record l { manager = run.manager }))
