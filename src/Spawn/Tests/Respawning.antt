-- ===== src/Spawn/Tests/Respawning.antt =====
-- Runs of the loop over all spawn points, of the respawn tasks and of the simple spawner.
use la2go.Prelude.{ℕ, ◌≤◌, ◌<◌, ◌≡◌, refl, [], ◌∷◌, All, none, some, ok, arith}
use la2go.Prelude.Int.{pos, ◌+ℤ◌}
use la2go.Prelude.Assoc.{lookup}
use la2go.World.Grid.{coord_to_region_index, is_valid_region_index}
use la2go.World.Objects.{get_region, get_region_by_index}
use la2go.Spawn.Manager.{Manager}
use la2go.Spawn.Filling.{AllFilled}
use la2go.Spawn.Progress.{CanSpawn, npc_count}
use la2go.Spawn.Loading.{Loaded, load_spawns, spawn_all}
use la2go.Spawn.Loading.Full.{IsFull, spawn_all-IsFull}
use la2go.Spawn.Respawn.{RespawnTask, Tasks, is_due, respawn_tick}
use la2go.Spawn.Respawn.Ticks.{respawn_tick-respawns}
use la2go.Spawn.Tests.{camp, camps, any_template}

abbrev empty_camps : Manager
empty_camps = record camps { spawns = λ p. camp [] (pos 0) }

empty_camps-AllFilled : AllFilled empty_camps
empty_camps-AllFilled q = record { counted = refl; room = omega arith; small = omega arith }

empty_camps-CanSpawn : (p : ℕ) → CanSpawn any_template (empty_camps.spawns p)
empty_camps-CanSpawn p = record {
  known = refl;
  region = coord_to_region_index (pos 10) (pos 20);
  at =
      (unfold get_region get_region_by_index coord_to_region_index is_valid_region_index ◌+ℤ◌ in
        refl);
}

abbrev two_loaded : Loaded
two_loaded = record { manager = empty_camps; loaded = (1, 7) ∷ (2, 8) ∷ []; spawn_count = pos 2 }

spawn_all-IsFull_example :
    (l' : Loaded) × (spawn_all any_template two_loaded ≡ ok (none, l'))
    × All (λ (e : ℕ × ℕ). IsFull (l'.manager.spawns e.1)) l'.loaded
spawn_all-IsFull_example =
    spawn_all-IsFull any_template two_loaded empty_camps-AllFilled ((refl, tt), (tt, tt))
      ((empty_camps-CanSpawn 7, refl), ((empty_camps-CanSpawn 8, refl), tt))

abbrev task : RespawnTask
task = record { spawn = 7; respawn_time = pos 5 }

abbrev tasks : Tasks
tasks = (1, task) ∷ []

respawn_tick-respawns_example :
    (rest : Tasks) × (m' : Manager) × (respawn_tick any_template (pos 9) (tasks, empty_camps)
      ≡ ok (rest, m'))
    × (lookup 1 rest ≡ none)
    × (npc_count 7 empty_camps < npc_count 7 m')
    × ((q : ℕ) → npc_count q empty_camps ≤ npc_count q m')
respawn_tick-respawns_example =
    respawn_tick-respawns any_template (pos 9) 1 task tasks empty_camps
      (unfold lookup in (refl, tt)) (unfold lookup in refl) (unfold is_due in refl)
      empty_camps-AllFilled (empty_camps-CanSpawn 7) (omega arith)

-- A repository that answers with two spawns.
load_spawns_two : (load_spawns (some (7 ∷ 8 ∷ [])) two_loaded).1.spawn_count ≡ pos 2
unfolding load_spawns
load_spawns_two = refl
