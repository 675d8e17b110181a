-- ===== src/Spawn/Manager.antt =====
-- internal/spawn/manager.go, and spawn.go and npc.go of internal/model. Spawns and NPCs are pointers:
-- a spawn is a number, and an NPC is the address of its world object. Of a template only matters
-- whether the repository has it. LoadSpawns and SpawnAll are in Spawn/Loading.antt.
use la2go.Prelude.{
  ℕ, suc, ◌+◌, ◌%◌, ◌^◌, List, [], ◌∷◌, ◌++◌, Bool, not, if◌then◌else◌, ◌==◌, Option, none, some,
  Result, ok, err, panic, spawn_full, no_template,
}
use la2go.Prelude.Int.{ℤ, pos, ◌+ℤ◌, ◌-ℤ◌, ltb_ℤ}
use la2go.World.Objects.{World, Location, Address, add_object, remove_object}
use la2go.Ai.BasicNpc.{BasicNpcAi, new_basic_npc_ai, start, stop, tick}
use la2go.Ai.TickManager.{
  Controller, TickManager, register_controller, unregister_controller, wrap_int32,
}

pub record Spawn : Type 0 where
  pub spawn_id : ℤ
  pub template_id : ℤ
  pub location : Location
  pub maximum_count : ℤ
  pub do_respawn : Bool
  pub current_count : ℤ
  pub npc_list : List Address

unfoldable pub increase_count : Spawn → Spawn
unfolding ◌+ℤ◌
increase_count spawn = record spawn { current_count = wrap_int32 (spawn.current_count +ℤ pos 1) }

unfoldable pub decrease_count : Spawn → Spawn
unfolding ◌-ℤ◌
decrease_count spawn = record spawn { current_count = wrap_int32 (spawn.current_count -ℤ pos 1) }

unfoldable pub add_npc : Address → Spawn → Spawn
add_npc a spawn = record spawn { npc_list = spawn.npc_list ++ (a ∷ []) }

-- The first occurrence is taken out.
unfoldable pub without : Address → List Address → List Address
without a [] = []
without a (b ∷ npcs) = let rest = without a npcs in if b == a then npcs else b ∷ rest

unfoldable pub remove_npc : Address → Spawn → Spawn
remove_npc a spawn = record spawn { npc_list = without a spawn.npc_list }

abbrev pub basic_methods : Controller BasicNpcAi
basic_methods = record { start = start; stop = stop; tick = tick }

-- The state of the manager, and of all that it changes. `next_address` is where the next object is
-- allocated, and `npc_spawn` is the spawn that an NPC refers to.
pub record Manager : Type 0 where
  pub world : World
  pub ai_manager : TickManager BasicNpcAi
  pub object_id_counter : ℕ
  pub spawns : ℕ → Spawn
  pub npc_spawn : Address → Option ℕ
  pub next_address : Address

abbrev pub assign : {A : Type 0} → ℕ → A → (ℕ → A) → ℕ → A
assign k v f j = if k == j then v else f j

-- The manager with the new NPC of a spawn: allocated, placed and counted.
unfoldable pub allocate : ℕ → Manager → Manager
allocate p m =
    let spawn = m.spawns p in
    let a = m.next_address in
    let id = (m.object_id_counter + 1) % 2 ^ 32 in
    record m {
      object_id_counter = id;
      next_address = suc a;
      npc_spawn = assign a (some p) m.npc_spawn;
      spawns = assign p (add_npc a (increase_count spawn)) m.spawns;
      world = record (m.world) {
        heap = assign a (record { object_id = id; location = spawn.location }) m.world.heap;
      };
    }

unfoldable pub roll_back : ℕ → Address → Manager → Manager
roll_back p a m = record m {
  spawns = assign p (remove_npc a (decrease_count (m.spawns p))) m.spawns;
}

unfoldable pub do_spawn : (ℤ → Bool) → ℕ → Manager → Result Address × Manager
do_spawn has_template p m =
    let spawn = m.spawns p in
    let a = m.next_address in
    let m' = allocate p m in
    if not (ltb_ℤ spawn.current_count spawn.maximum_count)
    then (err spawn_full, m)
    else if not (has_template spawn.template_id)
    then (err no_template, m)
    else elim (add_object a m'.world) [
      | ok w ↦ (
        ok a,
        record m' {
          world = w;
          ai_manager =
              register_controller basic_methods m'.object_id_counter new_basic_npc_ai m'.ai_manager;
        },
      )
      | err e ↦ (err e, roll_back p a m')
      | panic ↦ (panic, m')
    ]

unfoldable pub despawn_npc : Address → Manager → Manager
despawn_npc a m = elim (m.npc_spawn a) [
  | none ↦ m
  | some p ↦
      (let id = (m.world.heap a).object_id in
        record m {
          ai_manager = (unregister_controller basic_methods id m.ai_manager).0;
          world = remove_object id m.world;
          spawns = assign p (decrease_count (remove_npc a (m.spawns p))) m.spawns;
        })
]
