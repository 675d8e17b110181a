-- ===== src/Spawn/Hardcoded.antt =====
-- The NPC of the simple spawner: it is placed, but its spawn point does not know of it.
use la2go.Prelude.{ℕ, ◌+◌, ◌%◌, ◌^◌, ◌≡◌, refl, ap, [], some, ok}
use la2go.Prelude.Int.{pos, negsuc, ◌+ℤ◌, ◌-ℤ◌}
use la2go.World.Grid.{Index, coord_to_region_index, is_valid_region_index}
use la2go.World.Objects.{WorldObject, Address, region_of, get_region, get_region_by_index}
use la2go.World.Reachable.{add_object-some}
use la2go.Spawn.Manager.{Manager, despawn_npc, decrease_count, remove_npc, without}
use la2go.Spawn.Results.{assign-same}
use la2go.Spawn.SimpleSpawner.{place_npc, spawn_hardcoded, test_spawn, spawn_test_npc}

island_region : Index
island_region = coord_to_region_index (pos 17000) (pos 170000)

island_in_grid : get_region (pos 17000) (pos 170000) ≡ some island_region
unfolding island_region get_region get_region_by_index coord_to_region_index is_valid_region_index
    ◌+ℤ◌
island_in_grid = refl

placed_region :
    (p : ℕ) (m : Manager)
    → region_of (place_npc p test_spawn m).world.heap m.next_address ≡ some island_region
unfolding place_npc
placed_region p m =
    let placed =
      ap (λ (o : WorldObject). o.location)
        (assign-same m.next_address
          (record {
            object_id = (m.object_id_counter + 1) % 2 ^ 32;
            location = test_spawn.location;
          })
          m.world.heap) in
    rw placed island_in_grid

-- The despawned spawn point of an NPC.
despawned_spawn :
    (a : Address) (p : ℕ) (m : Manager)
    → m.npc_spawn a ≡ some p
    → (despawn_npc a m).spawns p ≡ decrease_count (remove_npc a (m.spawns p))
unfolding despawn_npc
despawned_spawn a p m e = rw (e, despawn_npc) (assign-same p _ m.spawns)

module _ (p : ℕ) (m : Manager) where
  abbrev after : Manager
  after = (spawn_test_npc p m).1

  spawned : (spawn_test_npc p m).0 ≡ ok m.next_address
  unfolding spawn_hardcoded
  spawned =
      let e =
        add_object-some (place_npc p test_spawn m).world m.next_address island_region
          (placed_region p m) in
      rw (spawn_hardcoded, e) refl

  spawn_kept : after.spawns p ≡ test_spawn
  unfolding spawn_hardcoded
  spawn_kept =
      let e =
        add_object-some (place_npc p test_spawn m).world m.next_address island_region
          (placed_region p m) in
      rw (after, spawn_hardcoded, e) (unfold place_npc in assign-same p test_spawn m.spawns)

  npc_kept : after.npc_spawn m.next_address ≡ some p
  unfolding spawn_hardcoded
  npc_kept =
      let e =
        add_object-some (place_npc p test_spawn m).world m.next_address island_region
          (placed_region p m) in
      rw (after, spawn_hardcoded, e)
        (unfold place_npc in assign-same m.next_address (some p) m.npc_spawn)

  counted_below : (decrease_count (remove_npc m.next_address test_spawn)).current_count ≡ negsuc 0
  unfolding decrease_count remove_npc without ◌-ℤ◌
  counted_below = refl

  -- The NPC of SpawnTestNpc is always placed, but its spawn has no NPC counted or listed, so that despawning the
  -- NPC leaves the spawn with a count of -1.
  despawn_npc-spawn_test_npc :
      let result = spawn_test_npc p m in
      (result.0 ≡ ok m.next_address)
      × ((result.1.spawns p).current_count ≡ pos 0)
      × ((result.1.spawns p).npc_list ≡ [])
      × (((despawn_npc m.next_address result.1).spawns p).current_count ≡ negsuc 0)
  despawn_npc-spawn_test_npc = (
    spawned,
    rw spawn_kept refl,
    rw spawn_kept refl,
    rw (despawned_spawn m.next_address p after npc_kept, spawn_kept) counted_below,
  )
