-- ===== src/World/Visibility/Loops.antt =====
-- The nested loops of an iteration are one loop over the objects of the regions, one region after the
-- other, that ends where the function says so (internal/world/visibility.go).
use la2go.Prelude.{
  ◌≡◌, refl, inl, inr, List, [], ◌∷◌, ◌++◌, Bool, true, false, if◌then◌else◌, Bool-cases, none,
  some, Option, Option-cases,
}
use la2go.Prelude.Int.{ℤ}
use la2go.World.Grid.{Index, surrounding_regions}
use la2go.World.Objects.{World, Address, Objects, get_region}
use la2go.World.Visibility.{range_visible, sweep, for_each_visible_object}

-- The objects of regions, one region after the other.
abbrev pub shown_objects : World → List Index → Objects
shown_objects w [] = []
shown_objects w (i ∷ is) = w.regions i ++ shown_objects w is

abbrev pub addresses : Objects → List Address
addresses [] = []
addresses ((id, a) ∷ m) = a ∷ addresses m

module _ {S : Type 0} (f : S → Address → S × Bool) where
  -- The second loop begins where the first has come to its end.
  range_visible-append :
      (s : S) (m m' : Objects)
      → range_visible f s (m ++ m') ≡ (
          let (s', more) = range_visible f s m in
          if more then range_visible f s' m' else (s', false))
  unfolding range_visible
  range_visible-append s [] m' = refl
  range_visible-append s ((id, a) ∷ m) m' = elim (Bool-cases (f s a).1) [
    | inl e ↦ rw e (range_visible-append (f s a).0 m m')
    | inr e ↦ rw e refl
  ]

  pub sweep-range_visible :
      (w : World) (s : S) (is : List Index)
      → sweep w f s is ≡ (range_visible f s (shown_objects w is)).0
  unfolding sweep
  sweep-range_visible w s [] = unfold range_visible in refl
  sweep-range_visible w s (i ∷ is) = elim (Bool-cases (range_visible f s (w.regions i)).1) [
    | inl e ↦
        rw (range_visible-append s (w.regions i) (shown_objects w is), e)
          (sweep-range_visible w (range_visible f s (w.regions i)).0 is)
    | inr e ↦ rw (range_visible-append s (w.regions i) (shown_objects w is), e) refl
  ]

  -- From coordinates in the grid, the loops are one loop.
  pub for_each_visible_object_lem :
      (w : World) (x y : ℤ) (i : Index) (s : S)
      → get_region x y ≡ some i
      → for_each_visible_object w x y f s
        ≡ (range_visible f s (shown_objects w (surrounding_regions i))).0
  unfolding for_each_visible_object
  for_each_visible_object_lem w x y i s e =
      rw (e, for_each_visible_object) (sweep-range_visible w s (surrounding_regions i))

  -- A loop over objects, as a relation between the state in which it begins and the one in which it
  -- ends: it goes on behind an object while the function says so.
  pub data Iterates : List Address → S → S → Type 0 where
    ends : {s : S} → Iterates [] s s
    stops :
        {a : Address} {others : List Address} {s : S}
        → (f s a).1 ≡ false
        → Iterates (a ∷ others) s (f s a).0
    goes_on :
        {a : Address} {others : List Address} {s s' : S}
        → (f s a).1 ≡ true
        → Iterates others (f s a).0 s'
        → Iterates (a ∷ others) s s'

  range_visible-Iterates : (m : Objects) (s : S) → Iterates (addresses m) s (range_visible f s m).0
  unfolding range_visible
  range_visible-Iterates [] s = ends
  range_visible-Iterates ((id, a) ∷ m) s = elim (Bool-cases (f s a).1) [
    | inl e ↦ rw e (goes_on e (range_visible-Iterates m (f s a).0))
    | inr e ↦ rw e (stops e)
  ]

  -- Where an iteration ends that begins with `s`: off the grid as it began.
  abbrev pub EndsAt : World → S → S → Option Index → Type 0
  EndsAt w s s' none = s' ≡ s
  EndsAt w s s' (some i) = Iterates (addresses (shown_objects w (surrounding_regions i))) s s'

  -- From coordinates in the grid, an iteration over the visible objects ends where a loop over the
  -- objects of the regions around ends, region by region in the order of the search, that begins in
  -- the state given, runs the function once on each object, and stops behind the first object at
  -- which the function says so, or behind the last one; from other coordinates nothing is run.
  pub for_each_visible_object-Iterates :
      (w : World) (x y : ℤ) (s : S)
      → EndsAt w s (for_each_visible_object w x y f s) (get_region x y)
  unfolding for_each_visible_object
  for_each_visible_object-Iterates w x y s = elim (Option-cases (get_region x y)) [
    | inl off ↦ rw (off, for_each_visible_object) refl
    | inr (i, e) ↦
        rw (for_each_visible_object_lem w x y i s e, e)
          (range_visible-Iterates (shown_objects w (surrounding_regions i)) s)
  ]
