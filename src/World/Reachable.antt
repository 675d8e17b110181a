-- ===== src/World/Reachable.antt =====
-- What the operations of the world do to the places of its objects.
use la2go.Prelude.{
  ℕ, ◌==◌, ◌≡◌, refl, sym, inl, inr, ◌∙◌, Bool-cases, if◌then◌else◌, none, some, Option-cases, ok,
  err, invalid_coordinates, arith,
}
use la2go.Prelude.Assoc.{lookup, erase, insert}
use la2go.World.Grid.{Index}
use la2go.World.Objects.{
  World, Location, Address, Heap, new_world, region_of, get_region, add_object, remove_object,
  set_location, add_visible_object, remove_visible_object, update_region,
}
use la2go.World.Placement.{
  IsPlaced, new_world-IsPlaced, IsPlaced-add, IsPlaced-remove, IsPlaced-remove_outside,
}

-- What the operations do, by the region that the object stands in.
module _ (w : World) (a : Address) where
  abbrev pub added : Index → World
  added i =
      let id = (w.heap a).object_id in
      record w {
        objects = insert id a w.objects;
        regions = update_region i (insert id a) w.regions;
      }

  pub add_object-none : region_of w.heap a ≡ none → add_object a w ≡ err invalid_coordinates
  unfolding add_object
  add_object-none e = rw (e, add_object) refl

  pub add_object-some : (i : Index) → region_of w.heap a ≡ some i → add_object a w ≡ ok (added i)
  unfolding add_object add_visible_object
  add_object-some i e = rw (e, add_object) refl

module _ (w : World) (id : ℕ) where
  abbrev pub removed : Index → World
  removed i = record w {
    objects = erase id w.objects;
    regions = update_region i (erase id) w.regions;
  }

  pub remove_object-absent : lookup id w.objects ≡ none → remove_object id w ≡ w
  unfolding remove_object
  remove_object-absent e = rw (e, remove_object) refl

  pub remove_object-none :
      (a : Address)
      → lookup id w.objects ≡ some a
      → region_of w.heap a ≡ none
      → remove_object id w ≡ record w { objects = erase id w.objects }
  unfolding remove_object
  remove_object-none a e at = rw (e, remove_object, at) refl

  pub remove_object-some :
      (a : Address) (i : Index)
      → lookup id w.objects ≡ some a
      → region_of w.heap a ≡ some i
      → remove_object id w ≡ removed i
  unfolding remove_object remove_visible_object
  remove_object-some a i e at = rw (e, remove_object, at) refl

add_object-IsPlaced :
    (w w' : World) (a : Address)
    → IsPlaced w
    → lookup (w.heap a).object_id w.objects ≡ none
    → add_object a w ≡ ok w'
    → IsPlaced w'
add_object-IsPlaced w w' a p fresh h = elim (Option-cases (region_of w.heap a)) [
  | inl e ↦ (let refused = add_object-none w a e in cc)
  | inr (i, e) ↦
      (let done = add_object-some w a i e in
        let same : added w a i ≡ w' = cc in rw (sym same) (IsPlaced-add w p a i fresh e))
]

pub remove_object-IsPlaced : (w : World) (id : ℕ) → IsPlaced w → IsPlaced (remove_object id w)
remove_object-IsPlaced w id p = elim (Option-cases (lookup id w.objects)) [
  | inl e ↦ rw (remove_object-absent w id e) p
  | inr (a, e) ↦ elim (Option-cases (region_of w.heap a)) [
    | inl at ↦ rw (remove_object-none w id a e at) (IsPlaced-remove_outside w p id a e at)
    | inr (i, at) ↦ rw (remove_object-some w id a i e at) (IsPlaced-remove w p id a i e at)
  ]
]

set_location-same :
    (w : World) (a : Address) (loc : Location) (b : Address)
    → get_region loc.x loc.y ≡ region_of w.heap a
    → (region_of (set_location a loc w).heap b ≡ region_of w.heap b)
      × (((set_location a loc w).heap b).object_id ≡ (w.heap b).object_id)
unfolding set_location
set_location-same w a loc b h = elim (Bool-cases (a == b)) [
  | inl e ↦ (let same : a ≡ b = ground arith in rw (e, if◌then◌else◌, sym same) (h, refl))
  | inr e ↦ rw e (refl, refl)
]

set_location-IsPlaced :
    (w : World) (a : Address) (loc : Location)
    → get_region loc.x loc.y ≡ region_of w.heap a
    → IsPlaced w
    → IsPlaced (set_location a loc w)
set_location-IsPlaced w a loc h p = record {
  once = λ i. unfold set_location in p.once i;
  named = λ id b stored.
      (set_location-same w a loc b h).1 ∙ p.named id b (unfold set_location in stored);
  shown = λ id i b seen.
      let (stored, at) = p.shown id i b (unfold set_location in seen) in
      ((unfold set_location in stored), (set_location-same w a loc b h).0 ∙ at);
  covers = λ id i b stored at.
      unfold set_location in p.covers id i b stored (sym (set_location-same w a loc b h).0 ∙ at);
}

-- An object is added under an id that is free, or removed, or moved inside of its region.
pub data WorldStep (w : World) : World → Type 0 where
  adds :
      (a : Address) (w' : World)
      → lookup (w.heap a).object_id w.objects ≡ none
      → add_object a w ≡ ok w'
      → WorldStep w w'
  removes : (id : ℕ) → WorldStep w (remove_object id w)
  moves :
      (a : Address) (loc : Location)
      → get_region loc.x loc.y ≡ region_of w.heap a
      → WorldStep w (set_location a loc w)

pub data ReachableWorld (heap : Heap) : World → Type 0 where
  begins : ReachableWorld heap (new_world heap)
  goes_on : {w w' : World} → ReachableWorld heap w → WorldStep w w' → ReachableWorld heap w'

WorldStep-IsPlaced : {w w' : World} → WorldStep w w' → IsPlaced w → IsPlaced w'
WorldStep-IsPlaced {w = w} (adds a w' fresh h) p = add_object-IsPlaced w w' a p fresh h
WorldStep-IsPlaced {w = w} (removes id) p = remove_object-IsPlaced w id p
WorldStep-IsPlaced {w = w} (moves a loc h) p = set_location-IsPlaced w a loc h p

-- In a world that was reached from the empty one by adding objects under free ids, by removing
-- objects, and by moving them inside of their regions, every object is shown by the region of its
-- location, and nothing else is shown by any region.
pub ReachableWorld-IsPlaced : {heap : Heap} {w : World} → ReachableWorld heap w → IsPlaced w
ReachableWorld-IsPlaced {heap = heap} begins = new_world-IsPlaced heap
ReachableWorld-IsPlaced (goes_on r step) = WorldStep-IsPlaced step (ReachableWorld-IsPlaced r)
