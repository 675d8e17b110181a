-- ===== src/World/Visibility/Visits.antt =====
-- How often an iteration over the visible objects comes to an object.
use mathlib.Core.Path.{subst}
use la2go.Prelude.{
  ℕ, ◌+◌, ◌==◌, ◌≡◌, ◌≢◌, refl, sym, ap, ◌∙◌, inl, inr, List, [], ◌∷◌, ◌++◌, Bool, true, false,
  if◌then◌else◌, Bool-cases, Option-cases, arith, none, some,
}
use la2go.Prelude.Int.{ℤ}
use la2go.Prelude.Assoc.{lookup, IsOnce}
use la2go.World.Grid.{Index, surrounding_regions, eq_index, is_valid_region_index}
use la2go.World.Grid.Surrounding.{indicator, times, near, times-surrounding_regions}
use la2go.World.Objects.{World, Address, Objects, get_region, get_region_by_index, region_of}
use la2go.World.Placement.{IsPlaced, eq_index_iff}
use la2go.World.Visibility.{range_visible, for_each_visible_object}
use la2go.World.Visibility.Loops.{for_each_visible_object_lem, shown_objects}

-- Counts the visits of one object.
abbrev pub tally : Address → ℕ → Address → ℕ × Bool
tally a n b = (n + indicator (a == b), true)

abbrev visits : Address → Objects → ℕ
visits a [] = 0
visits a ((id, b) ∷ m) = indicator (a == b) + visits a m

range_visible-tally :
    (a : Address) (n : ℕ) (m : Objects) → range_visible (tally a) n m ≡ (n + visits a m, true)
unfolding range_visible
range_visible-tally a n [] = ground arith
range_visible-tally a n ((id, b) ∷ m) =
    range_visible-tally a (n + indicator (a == b)) m ∙ ap (λ (k : ℕ). (k, true)) (ground arith)

visits-append : (a : Address) (m m' : Objects) → visits a (m ++ m') ≡ visits a m + visits a m'
visits-append a [] m' = ground arith
visits-append a ((id, b) ∷ m) m' = ground (arith, visits-append a m m')

-- An object that stands under its own id alone is visited once, or not at all.
visits-lookup :
    (a : Address) (id : ℕ) (m : Objects)
    → IsOnce m
    → ((k : ℕ) → lookup k m ≡ some a → k ≡ id)
    → visits a m ≡ elim (lookup id m) [ none ↦ 0 | some b ↦ indicator (a == b) ]
unfolding lookup
visits-lookup a id [] o h = refl
visits-lookup a id ((k, b) ∷ m) (free, o) h =
    let ih = visits-lookup a id m o (λ k' e. h k' (elim (Bool-cases (k == k')) [
      | inl c ↦ (let same : k ≡ k' = ground arith in absurd (ground (arith, free, e)))
      | inr c ↦ rw c e
    ])) in
    elim (Bool-cases (k == id)) [
      | inl e ↦
          (let same : k ≡ id = ground arith in
            let none_left : lookup id m ≡ none = subst (λ (n : ℕ). lookup n m ≡ none) same free in
            let ih' : visits a m ≡ 0 = ih ∙ rw none_left refl in rw (e, ih') (ground arith))
      | inr e ↦
          (let differ : (a == b) ≡ false = elim (Bool-cases (a == b)) [
            | inl c ↦ absurd (
                let same : a ≡ b = ground arith in
                let eq : k ≡ id =
                  h k (let c' : (k == k) ≡ true = ground arith in rw (c', sym same) refl) in
                ground arith)
            | inr c ↦ c
          ] in
            rw (e, differ) (ground (arith, ih)))
    ]

-- The regions that show an object, summed up.
visits-shown_objects :
    (w : World) (a : Address) (at : Index) (stored : Bool)
    → ((i : Index) → visits a (w.regions i) ≡ (if stored then indicator (eq_index i at) else 0))
    → (is : List Index) → visits a (shown_objects w is) ≡ (if stored then times at is else 0)
visits-shown_objects w a at stored h [] = ground arith
visits-shown_objects w a at stored h (i ∷ is) =
    visits-append a (w.regions i) (shown_objects w is)
    ∙ ground (arith, h i, visits-shown_objects w a at stored h is)

get_region_by_index-valid :
    (i j : Index) → get_region_by_index i ≡ some j → is_valid_region_index j ≡ true
unfolding get_region_by_index
get_region_by_index-valid i j h = elim (Bool-cases (is_valid_region_index i)) [
  | inl e ↦ (let same : i ≡ j = ground arith in rw (sym same) e)
  | inr e ↦ absurd (ground arith)
]

region_of-valid :
    (w : World) (a : Address) (i : Index)
    → region_of w.heap a ≡ some i
    → is_valid_region_index i ≡ true
unfolding get_region
region_of-valid w a i h = get_region_by_index-valid _ i h

module _ (w : World) (a : Address) (p : IsPlaced w) where
  visits-region :
      (i : Index)
      → visits a (w.regions i) ≡ elim (lookup (w.heap a).object_id (w.regions i)) [
        | none ↦ 0
        | some b ↦ indicator (a == b)
      ]
  visits-region i =
      visits-lookup a (w.heap a).object_id (w.regions i) (p.once i)
        (λ k e. sym (p.named k a (p.shown k i a e).0))

  stored_visits :
      (at : Index)
      → lookup (w.heap a).object_id w.objects ≡ some a
      → region_of w.heap a ≡ some at
      → (i : Index) → visits a (w.regions i) ≡ indicator (eq_index i at)
  stored_visits at stored here i =
      let id = (w.heap a).object_id in
      visits-region i ∙ elim (Option-cases (lookup id (w.regions i))) [
        | inl e ↦ rw e (elim (Bool-cases (eq_index i at)) [
          | inl c ↦ absurd (
              let same : i ≡ at = (eq_index_iff i at).0 c in
              let seen = p.covers id at a stored here in
              let seen' : lookup id (w.regions i) ≡ some a =
                subst (λ (r : Index). lookup id (w.regions r) ≡ some a) (sym same) seen in
              ground (arith, e))
          | inr c ↦ rw c refl
        ])
        | inr (b, e) ↦
            (let (stored_b, at_b) = p.shown id i b e in
              let same_b : b ≡ a = cc in
              let same : i ≡ at = cc in rw (e, same_b, (eq_index_iff i at).1 same) (ground arith))
      ]

  other_visits :
      lookup (w.heap a).object_id w.objects ≢ some a → (i : Index) → visits a (w.regions i) ≡ 0
  other_visits absent i =
      let id = (w.heap a).object_id in
      visits-region i ∙ elim (Option-cases (lookup id (w.regions i))) [
        | inl e ↦ rw e refl
        | inr (b, e) ↦
            (let (stored_b, at_b) = p.shown id i b e in
              rw e (elim (Bool-cases (a == b)) [
                | inl c ↦
                    absurd
                      (absent (let same : a ≡ b = ground arith in stored_b ∙ ap some (sym same)))
                | inr c ↦ rw c refl
              ]))
      ]

  -- In a world whose objects are shown where they stand, an iteration from coordinates in the grid
  -- comes to an object of the world once if its region is near to that of the coordinates, and
  -- otherwise never; it never comes to anything else.
  pub for_each_visible_object-tally :
      (x y : ℤ) (here : Index)
      → get_region x y ≡ some here
      → ((at : Index)
          → lookup (w.heap a).object_id w.objects ≡ some a
          → region_of w.heap a ≡ some at
          → for_each_visible_object w x y (tally a) 0 ≡ indicator (near here at))
        × (lookup (w.heap a).object_id w.objects ≢ some a
            → for_each_visible_object w x y (tally a) 0 ≡ 0)
  for_each_visible_object-tally x y here e =
      let around = surrounding_regions here in
      let all : for_each_visible_object w x y (tally a) 0 ≡ visits a (shown_objects w around) =
        for_each_visible_object_lem (tally a) w x y here 0 e
        ∙ (ap (λ (r : ℕ × Bool). r.0) (range_visible-tally a 0 (shown_objects w around))
            ∙ ground arith) in
      (
        λ at stored stands.
            let valid = region_of-valid w a at stands in
            all
            ∙ (visits-shown_objects w a at true (stored_visits at stored stands) around
                ∙ (times-surrounding_regions here at ∙ rw valid (ground arith))),
        λ absent. all ∙ visits-shown_objects w a here false (other_visits absent) around,
      )
