-- ===== src/World/Removal.antt =====
-- What `RemoveObject` removes, and what it leaves behind when an object has changed its region.
use la2go.Prelude.{
  ℕ, ◌==◌, ◌≡◌, ◌≢◌, refl, sym, ap, inl, inr, ◌∙◌, Bool-cases, if◌then◌else◌, none, some,
  Option-cases, arith, true, false,
}
use la2go.Prelude.Assoc.{lookup, erase, lookup-erase}
use la2go.World.Grid.{Index, eq_index}
use la2go.World.Objects.{
  World, Location, Address, region_of, get_region, get_object, remove_object, set_location,
}
use la2go.World.Placement.{IsPlaced, eq_index_iff}
use la2go.World.Reachable.{
  remove_object-IsPlaced, remove_object-absent, remove_object-none, remove_object-some,
}

remove_object-objects :
    (id : ℕ) (w : World) (other : ℕ)
    → lookup other (remove_object id w).objects ≡ lookup other (erase id w.objects)
remove_object-objects id w other = elim (Option-cases (lookup id w.objects)) [
  | inl e ↦
      rw (remove_object-absent w id e, lookup-erase id other w.objects)
        (elim (Bool-cases (id == other)) [
          | inl same ↦ (let eq : id ≡ other = ground arith in rw (same, sym eq) e)
          | inr differ ↦ rw differ refl
        ])
  | inr (a, e) ↦ elim (Option-cases (region_of w.heap a)) [
    | inl at ↦ rw (remove_object-none w id a e at) refl
    | inr (i, at) ↦ rw (remove_object-some w id a i e at) refl
  ]
]

-- In a world whose objects are shown where they stand, a removed object is found neither under its
-- id nor in any region, and the other objects are found as before.
pub remove_object-get_object :
    (w : World) (id : ℕ)
    → IsPlaced w
    → let w' = remove_object id w in
      (get_object id w' ≡ none)
      × ((i : Index) → lookup id (w'.regions i) ≡ none)
      × ((other : ℕ) → other ≢ id → get_object other w' ≡ get_object other w)
unfolding get_object
remove_object-get_object w id p =
    let w' = remove_object id w in
    let gone : lookup id w'.objects ≡ none =
      remove_object-objects id w id ∙ (lookup-erase id id w.objects ∙ ground arith) in
    (
      gone,
      λ i. elim (Option-cases (lookup id (w'.regions i))) [
        | inl e ↦ e
        | inr (a, e) ↦ (let (stored, at) = (remove_object-IsPlaced w id p).shown id i a e in cc)
      ],
      λ other d.
          remove_object-objects id w other ∙ (lookup-erase id other w.objects ∙ ground arith),
    )

-- An object that has moved to another region, or out of the grid, and is then removed is no longer
-- an object of the world, but its old region still shows it.
pub remove_object-set_location :
    (w : World) (id : ℕ) (a : Address) (i : Index) (loc : Location)
    → IsPlaced w
    → lookup id w.objects ≡ some a
    → region_of w.heap a ≡ some i
    → get_region loc.x loc.y ≢ some i
    → let w' = remove_object id (set_location a loc w) in
      (get_object id w' ≡ none) × (lookup id (w'.regions i) ≡ some a)
unfolding get_object set_location
remove_object-set_location w id a i loc p stored at away =
    let moved = set_location a loc w in
    let here : region_of moved.heap a ≡ get_region loc.x loc.y =
      (let same : (a == a) ≡ true = ground arith in rw (same, if◌then◌else◌) refl) in
    let seen = p.covers id i a stored at in
    (
      remove_object-objects id moved id ∙ (lookup-erase id id w.objects ∙ ground arith),
      elim (Option-cases (get_region loc.x loc.y)) [
        | inl e ↦ rw (remove_object-none moved id a stored (here ∙ e)) seen
        | inr (j, e) ↦
            (let other : j ≢ i = λ same. away (e ∙ ap some same) in
              let differ : eq_index j i ≡ false = ground (arith, eq_index_iff j i) in
              rw (remove_object-some moved id a j stored (here ∙ e), differ, if◌then◌else◌) seen)
      ],
    )
