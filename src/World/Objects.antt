-- ===== src/World/Objects.antt =====
-- internal/world/world.go and region.go, internal/model/worldobject.go and location.go. World and
-- regions hold pointers, so an object is an address of a heap; the name of an object is left out. A
-- region is told by its index, and `none` is the missing region.
use la2go.Prelude.{
  ℕ, suc, ◌*◌, List, [], ◌∷◌, Bool, true, false, ◌&&◌, if◌then◌else◌, Option, none, some, Result,
  ok, err, invalid_coordinates, length,
}
use la2go.Prelude.Int.{ℤ}
use la2go.Prelude.Assoc.{lookup, insert, erase}
use la2go.World.Grid.{Index, eq_index, coord_to_region_index, is_valid_region_index}

pub record Location : Type 0 where
  pub x : ℤ
  pub y : ℤ
  pub z : ℤ
  pub heading : ℕ

pub record WorldObject : Type 0 where
  pub object_id : ℕ
  pub location : Location

abbrev pub Address : Type 0
Address = ℕ

abbrev pub Heap : Type 0
Heap = Address → WorldObject

-- The visible objects of a region and the objects of the world, by their ids.
abbrev pub Objects : Type 0
Objects = List (ℕ × Address)

pub record World : Type 0 where
  pub heap : Heap
  pub objects : Objects
  pub regions : Index → Objects

unfoldable pub new_world : Heap → World
new_world heap = record { heap = heap; objects = []; regions = λ i. [] }

unfoldable pub get_region_by_index : Index → Option Index
get_region_by_index i = if is_valid_region_index i then some i else none

unfoldable pub get_region : ℤ → ℤ → Option Index
get_region x y = get_region_by_index (coord_to_region_index x y)

-- A change of the visible objects of one region.
abbrev pub update_region : Index → (Objects → Objects) → (Index → Objects) → Index → Objects
update_region i f regions j = if eq_index i j then f (regions j) else regions j

unfoldable pub add_visible_object : Address → Index → World → World
add_visible_object a i w = record w {
  regions = update_region i (insert (w.heap a).object_id a) w.regions;
}

unfoldable pub remove_visible_object : ℕ → Index → World → World
remove_visible_object id i w = record w { regions = update_region i (erase id) w.regions }

-- The region that the location of an object lies in.
abbrev pub region_of : Heap → Address → Option Index
region_of heap a = get_region (heap a).location.x (heap a).location.y

unfoldable pub add_object : Address → World → Result World
add_object a w = elim (region_of w.heap a) [
  | none ↦ err invalid_coordinates
  | some i ↦
      ok (add_visible_object a i (record w { objects = insert (w.heap a).object_id a w.objects }))
]

unfoldable pub remove_object : ℕ → World → World
remove_object id w = elim (lookup id w.objects) [
  | none ↦ w
  | some a ↦
      (let w' = record w { objects = erase id w.objects } in
        elim (region_of w.heap a) [ none ↦ w' | some i ↦ remove_visible_object id i w' ])
]

unfoldable pub get_object : ℕ → World → Option Address
get_object id w = lookup id w.objects

-- `SetLocation` of the object at an address.
unfoldable pub set_location : Address → Location → World → World
set_location a loc w = record w {
  heap = λ b. if la2go.Prelude.◌==◌ a b then record (w.heap b) { location = loc } else w.heap b;
}

unfoldable pub region_count : ℕ
region_count = 160 * 241

unfoldable pub object_count : World → ℕ
object_count w = length w.objects
