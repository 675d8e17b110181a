-- ===== src/Spawn/SimpleSpawner.antt =====
-- internal/spawn/simple_spawner.go. `p` is where the new spawn is allocated; the template of the NPC
-- is left out.
use la2go.Prelude.{ℕ, suc, ◌+◌, ◌%◌, ◌^◌, [], Bool, true, some, Result, ok, err, panic}
use la2go.Prelude.Int.{ℤ, pos, negsuc}
use la2go.World.Objects.{Location, Address, add_object}
use la2go.Ai.BasicNpc.{new_basic_npc_ai}
use la2go.Ai.TickManager.{register_controller}
use la2go.Spawn.Manager.{Spawn, Manager, basic_methods, assign}

abbrev pub new_spawn : ℤ → ℤ → Location → ℤ → Bool → Spawn
new_spawn spawn_id template_id location maximum_count do_respawn = record {
  spawn_id = spawn_id;
  template_id = template_id;
  location = location;
  maximum_count = maximum_count;
  do_respawn = do_respawn;
  current_count = pos 0;
  npc_list = [];
}

-- The NPC refers to the spawn, which neither counts nor lists it.
unfoldable pub place_npc : ℕ → Spawn → Manager → Manager
place_npc p spawn m =
    let a = m.next_address in
    let id = (m.object_id_counter + 1) % 2 ^ 32 in
    record m {
      object_id_counter = id;
      next_address = suc a;
      npc_spawn = assign a (some p) m.npc_spawn;
      spawns = assign p spawn m.spawns;
      world = record (m.world) {
        heap = assign a (record { object_id = id; location = spawn.location }) m.world.heap;
      };
    }

unfoldable pub spawn_hardcoded : ℕ → Spawn → Manager → Result Address × Manager
spawn_hardcoded p spawn m =
    let a = m.next_address in
    let m' = place_npc p spawn m in
    elim (add_object a m'.world) [
      | ok w ↦ (
        ok a,
        record m' {
          world = w;
          ai_manager =
              register_controller basic_methods m'.object_id_counter new_basic_npc_ai m'.ai_manager;
        },
      )
      | err e ↦ (err e, m')
      | panic ↦ (panic, m')
    ]

abbrev pub test_spawn : Spawn
test_spawn =
    let island : Location = record {
      x = pos 17000;
      y = pos 170000;
      z = negsuc 3499;
      heading = 0;
    } in
    new_spawn (pos 999999) (pos 1000) island (pos 1) true

abbrev pub spawn_test_npc : ℕ → Manager → Result Address × Manager
spawn_test_npc p m = spawn_hardcoded p test_spawn m

abbrev pub spawn_test_npc_at : ℕ → ℤ → ℤ → ℤ → Manager → Result Address × Manager
spawn_test_npc_at p x y z m =
    spawn_hardcoded p
      (new_spawn (pos 999998) (pos 1001) (record { x = x; y = y; z = z; heading = 0 }) (pos 1) true)
      m
