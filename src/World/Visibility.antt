-- ===== src/World/Visibility.antt =====
-- internal/world/visibility.go and visibility_manager.go, internal/model/visibility_cache.go. The
-- function given to an iteration is a step of a state of type S, which also says whether to go on.
-- Times are numbers of nanoseconds. Of a player the location and the cache are kept.
pub mod Loops
pub mod Visits
pub mod Players
use la2go.Prelude.{
  ℕ, suc, List, [], ◌∷◌, ◌++◌, Bool, true, false, not, ◌&&◌, if◌then◌else◌, Option, none, some, ltb,
  ◌==◌,
}
use la2go.Prelude.Int.{ℤ, ◌-ℤ◌, ltb_ℤ, eq_ℤ}
use la2go.World.Grid.{Index, coord_to_region_index, surrounding_regions}
use la2go.World.Objects.{World, Location, Address, Objects, get_region}

-- `Region.ForEachVisibleObject`, and whether it came to the end.
unfoldable pub range_visible : {S : Type 0} → (S → Address → S × Bool) → S → Objects → S × Bool
range_visible f s [] = (s, true)
range_visible f s ((id, a) ∷ m) =
    let (s', more) = f s a in let rest = range_visible f s' m in if more then rest else (s', false)

-- The loop over regions, which ends where the iteration over a region was stopped.
unfoldable pub sweep : {S : Type 0} → World → (S → Address → S × Bool) → S → List Index → S
sweep w f s [] = s
sweep w f s (i ∷ is) =
    let (s', more) = range_visible f s (w.regions i) in
    let rest = sweep w f s' is in if more then rest else s'

unfoldable pub for_each_visible_object :
    {S : Type 0} → World → ℤ → ℤ → (S → Address → S × Bool) → S → S
for_each_visible_object w x y f s = elim (get_region x y) [
  | none ↦ s
  | some i ↦ sweep w f s (surrounding_regions i)
]

unfoldable pub count_visible_objects : World → ℤ → ℤ → ℕ
count_visible_objects w x y = for_each_visible_object w x y (λ n a. (suc n, true)) 0

-- The region of the player is given by its index, but looked up as a pair of coordinates, and a stop
-- inside of it is not noticed.
unfoldable pub for_each_visible_object_for_player :
    {S : Type 0} → World → Location → (S → Address → S × Bool) → S → S
for_each_visible_object_for_player w loc f s =
    let (region_x, region_y) = coord_to_region_index loc.x loc.y in
    elim (get_region region_x region_y) [
      | none ↦ s
      | some i ↦ sweep w f (range_visible f s (w.regions i)).0 (surrounding_regions i)
    ]

abbrev pub append_object : List Address → Address → List Address × Bool
append_object objects a = (objects ++ (a ∷ []), true)

unfoldable pub get_visible_objects : World → Index → List Address
get_visible_objects w (region_x, region_y) = elim (get_region region_x region_y) [
  | none ↦ []
  | some i ↦
      sweep w append_object (range_visible append_object [] (w.regions i)).0 (surrounding_regions i)
]

pub record VisibilityCache : Type 0 where
  pub objects : List Address
  pub last_update : ℤ
  pub region_x : ℤ
  pub region_y : ℤ

unfoldable pub is_stale : ℤ → ℤ → VisibilityCache → Bool
is_stale now max_age cache = ltb_ℤ max_age (now -ℤ cache.last_update)

unfoldable pub is_valid_for_region : Index → VisibilityCache → Bool
is_valid_for_region (region_x, region_y) cache =
    eq_ℤ cache.region_x region_x && eq_ℤ cache.region_y region_y

pub record Player : Type 0 where
  pub location : Location
  pub visibility_cache : Option VisibilityCache

unfoldable pub is_current : ℤ → ℤ → Index → Option VisibilityCache → Bool
is_current now max_age i none = false
is_current now max_age i (some cache) =
    not (is_stale now max_age cache) && is_valid_for_region i cache

-- `checked` is the time at which the age is tested, `now` the one that the new cache gets.
unfoldable pub update_player_cache : World → ℤ → ℤ → ℤ → Player → Bool × Player
update_player_cache w max_age checked now player =
    let i = coord_to_region_index player.location.x player.location.y in
    if is_current checked max_age i player.visibility_cache then (false, player) else (
      true,
      record player {
        visibility_cache = some (record {
          objects = get_visible_objects w i;
          last_update = now;
          region_x = i.0;
          region_y = i.1;
        });
      },
    )

-- `ForEachVisibleObjectCached`: objects with the id 0 are passed over.
unfoldable pub range_cached : {S : Type 0} → World → (S → Address → S × Bool) → S → List Address → S
range_cached w f s [] = s
range_cached w f s (a ∷ others) =
    let (s', more) = f s a in
    let skipped = range_cached w f s others in
    let rest = range_cached w f s' others in
    if not (ltb 0 (w.heap a).object_id) then skipped else if more then rest else s'

unfoldable pub for_each_visible_object_cached :
    {S : Type 0} → World → Player → (S → Address → S × Bool) → S → S
for_each_visible_object_cached w player f s = elim player.visibility_cache [
  | none ↦ for_each_visible_object_for_player w player.location f s
  | some cache ↦ range_cached w f s cache.objects
]
