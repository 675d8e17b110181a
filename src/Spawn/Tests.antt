-- ===== src/Spawn/Tests.antt =====
-- Runs of the spawn manager.
mod Respawning
use la2go.Prelude.{◌≡◌, refl, List, [], ◌∷◌, Bool, true, some, arith, length}
use la2go.Prelude.Int.{ℤ, pos, ◌-ℤ◌}
use la2go.World.Objects.{Address, new_world}
use la2go.Ai.TickManager.{new_tick_manager}
use la2go.Spawn.Manager.{Spawn, Manager, do_spawn, despawn_npc}
use la2go.Spawn.Filling.{AllFilled, do_spawn-AllFilled}
use la2go.Spawn.Results.{AfterSpawn, do_spawn-AfterSpawn, despawn_npc-again}

abbrev pub camp : List Address → ℤ → Spawn
camp npcs n = record {
  spawn_id = pos 1;
  template_id = pos 20;
  location = (record { x = pos 10; y = pos 20; z = pos 0; heading = 0 });
  maximum_count = pos 3;
  do_respawn = true;
  current_count = n;
  npc_list = npcs;
}

-- Every spawn has the NPC 4, which refers to the spawn 7.
abbrev pub camps : Manager
camps = record {
  world = new_world (λ a. record {
    object_id = 100;
    location = (record { x = pos 0; y = pos 0; z = pos 0; heading = 0 });
  });
  ai_manager = new_tick_manager;
  object_id_counter = 100000;
  spawns = λ p. camp (4 ∷ []) (pos 1);
  npc_spawn = λ a. some 7;
  next_address = 5;
}

abbrev pub any_template : ℤ → Bool
any_template id = true

camps-AllFilled : AllFilled camps
camps-AllFilled q = record { counted = refl; room = omega arith; small = omega arith }

do_spawn-AllFilled_example : AllFilled (do_spawn any_template 7 camps).1
do_spawn-AllFilled_example = do_spawn-AllFilled any_template 7 camps camps-AllFilled

do_spawn-AfterSpawn_example : AfterSpawn any_template 7 camps (do_spawn any_template 7 camps)
do_spawn-AfterSpawn_example = do_spawn-AfterSpawn any_template 7 camps

despawn_npc-again_example :
    let after = (despawn_npc 9 camps).spawns 7 in
    (after.npc_list ≡ (4 ∷ [])) × (after.current_count ≡ pos (length after.npc_list) -ℤ pos 1)
despawn_npc-again_example = despawn_npc-again 9 7 camps refl (ground arith) (camps-AllFilled 7)
