-- ===== src/World/Tests.antt =====
-- Runs of the grid and the world.
use la2go.Prelude.{
  ℕ, ◌+◌, ◌≡◌, ◌≢◌, refl, List, [], ◌∷◌, ◌++◌, Bool, true, false, none, some, arith,
}
use la2go.Prelude.Int.{ℤ, pos}
use la2go.Prelude.Assoc.{lookup, insert}
use la2go.World.Grid.{Index, coord_to_region_index, is_valid_region_index, surrounding_regions}
use la2go.World.Grid.Surrounding.{near, indicator}
use la2go.World.Objects.{
  World, Location, Address, Heap, new_world, remove_object, set_location, get_object, region_of,
  get_region, get_region_by_index,
}
use la2go.World.Placement.{IsPlaced}
use la2go.World.Reachable.{
  ReachableWorld, begins, goes_on, adds, ReachableWorld-IsPlaced, added, add_object-some,
}
use la2go.World.Removal.{remove_object-get_object, remove_object-set_location}
use la2go.World.Visibility.{Player, for_each_visible_object, get_visible_objects}
use la2go.World.Visibility.Loops.{
  addresses, shown_objects, EndsAt, for_each_visible_object-Iterates,
}
use la2go.World.Visibility.Visits.{for_each_visible_object-tally, tally}
use la2go.World.Visibility.Players.{get_visible_objects_lem}

abbrev middle : Index
middle = (pos 64, pos 128)

middle-valid : is_valid_region_index middle ≡ true
unfolding is_valid_region_index
middle-valid = refl

-- Two objects near the origin.
abbrev place : ℤ → Location
place x = record { x = x; y = pos 5; z = pos 0; heading = 0 }

abbrev things : Heap
things a = record { object_id = 100 + a; location = place (pos a) }

abbrev empty_world : World
empty_world = new_world things

things-middle : region_of things 3 ≡ some middle
unfolding get_region get_region_by_index is_valid_region_index coord_to_region_index
things-middle = refl

abbrev one_thing : World
unfolding new_world
one_thing = added (new_world things) 3 middle

one_thing-reached : ReachableWorld things one_thing
unfolding new_world lookup one_thing
one_thing-reached =
    goes_on begins
      (adds 3 one_thing refl (add_object-some (new_world things) 3 middle things-middle))

ReachableWorld-IsPlaced_example : IsPlaced one_thing
ReachableWorld-IsPlaced_example = ReachableWorld-IsPlaced one_thing-reached

one_thing-IsPlaced : IsPlaced one_thing
one_thing-IsPlaced = ReachableWorld-IsPlaced one_thing-reached

one_thing-stored : lookup 103 one_thing.objects ≡ some 3
unfolding lookup insert one_thing
one_thing-stored = refl

one_thing-middle : region_of one_thing.heap 3 ≡ some middle
unfolding one_thing new_world
one_thing-middle = things-middle

remove_object-get_object_example :
    let w' = remove_object 103 one_thing in
    (get_object 103 w' ≡ none)
    × ((i : Index) → lookup 103 (w'.regions i) ≡ none)
    × ((other : ℕ) → other ≢ 103 → get_object other w' ≡ get_object other one_thing)
remove_object-get_object_example = remove_object-get_object one_thing 103 one_thing-IsPlaced

remove_object-set_location_example :
    let w' = remove_object 103 (set_location 3 (place (pos 5000)) one_thing) in
    (get_object 103 w' ≡ none) × (lookup 103 (w'.regions middle) ≡ some 3)
unfolding get_region get_region_by_index is_valid_region_index coord_to_region_index
remove_object-set_location_example =
    remove_object-set_location one_thing 103 3 middle (place (pos 5000)) one_thing-IsPlaced
      one_thing-stored one_thing-middle (λ e. ground arith)

-- Stops at the first object.
abbrev first_object : List Address → Address → List Address × Bool
first_object objects a = (objects ++ (a ∷ []), false)

for_each_visible_object-Iterates_example :
    EndsAt first_object one_thing []
      (for_each_visible_object one_thing (pos 0) (pos 0) first_object [])
      (get_region (pos 0) (pos 0))
for_each_visible_object-Iterates_example =
    for_each_visible_object-Iterates first_object one_thing (pos 0) (pos 0) []

for_each_visible_object-tally_example :
    ((at : Index)
      → lookup 103 one_thing.objects ≡ some 3
      → region_of one_thing.heap 3 ≡ some at
      → for_each_visible_object one_thing (pos 0) (pos 0) (tally 3) 0 ≡ indicator (near middle at))
    × (lookup 103 one_thing.objects ≢ some 3
        → for_each_visible_object one_thing (pos 0) (pos 0) (tally 3) 0 ≡ 0)
unfolding get_region get_region_by_index is_valid_region_index coord_to_region_index one_thing
    new_world
for_each_visible_object-tally_example =
    for_each_visible_object-tally one_thing 3 one_thing-IsPlaced (pos 0) (pos 0) middle refl

get_visible_objects_lem_example :
    get_visible_objects one_thing (pos 3, pos 4)
    ≡ addresses (one_thing.regions middle)
      ++ addresses (shown_objects one_thing (surrounding_regions middle))
unfolding is_valid_region_index
get_visible_objects_lem_example = get_visible_objects_lem one_thing (pos 3, pos 4) refl

abbrev newcomer : Player
newcomer = record { location = place (pos 7); visibility_cache = none }
