-- ===== src/World/Registered/Tests.antt =====
-- Batches over registered players.
use la2go.Prelude.{◌+◌, ◌≡◌, none, arith}
use la2go.Prelude.Int.{pos}
use la2go.World.Objects.{World, Location, new_world}
use la2go.World.Registered.{
  VisibilityManager, new_visibility_manager, register_player, update_all, player_count,
}
use la2go.World.Registered.Updates.{
  ReachableManager, starts, registers, AfterUpdate, update_all-AfterUpdate,
}

abbrev origin : Location
origin = record { x = pos 0; y = pos 0; z = pos 0; heading = 0 }

abbrev nothing : World
nothing = new_world (λ a. record { object_id = 0; location = origin })

abbrev two_players : VisibilityManager
two_players = register_player 2 (
    register_player 1 (
      new_visibility_manager (pos 200)
        (λ p. record { location = origin; visibility_cache = none })))

two_players-Reachable : ReachableManager two_players
two_players-Reachable = registers 2 (registers 1 (starts (pos 200) _))

update_all-AfterUpdate_example :
    let after = update_all nothing (λ p. pos 10) (λ p. pos 11) two_players in
    (after.updated + after.skipped ≡ player_count two_players)
    × AfterUpdate (λ p. pos 10) two_players after 1
update_all-AfterUpdate_example =
    update_all-AfterUpdate nothing (λ p. pos 10) (λ p. pos 11) two_players 1 two_players-Reachable
      (unfold register_player new_visibility_manager in omega arith) (omega arith)
