-- ===== src/World/Placement.antt =====
-- Which objects the regions show: those of the world, each in the region that it stands in.
use la2go.Prelude.{
  ℕ, ◌==◌, ◌≡◌, ◌≢◌, ◌↔◌, ◌⊎◌, refl, inl, inr, true, Bool-cases, if◌then◌else◌, none, some, arith,
}
use la2go.Prelude.Int.{eq_ℤ_iff}
use la2go.Prelude.Assoc.{
  IsOnce, insert-IsOnce, erase-IsOnce, lookup, insert, erase, lookup-insert, lookup-erase,
}
use la2go.World.Grid.{Index, eq_index}
use la2go.World.Objects.{World, Address, Heap, Objects, update_region, new_world, region_of}

pub eq_index_iff : (i j : Index) → (eq_index i j ≡ true) ↔ (i ≡ j)
eq_index_iff (rx, ry) (sx, sy) = ground (arith, eq_ℤ_iff rx sx, eq_ℤ_iff ry sy)

-- An object of the world is shown under its id, by the region of its location and by no other, and a
-- region shows no id twice.
pub record IsPlaced (w : World) : Type 0 where
  pub once : (i : Index) → IsOnce (w.regions i)
  pub named : (id : ℕ) (a : Address) → lookup id w.objects ≡ some a → (w.heap a).object_id ≡ id
  pub shown :
      (id : ℕ) (i : Index) (a : Address)
      → lookup id (w.regions i) ≡ some a
      → (lookup id w.objects ≡ some a) × (region_of w.heap a ≡ some i)
  pub covers :
      (id : ℕ) (i : Index) (a : Address)
      → lookup id w.objects ≡ some a
      → region_of w.heap a ≡ some i
      → lookup id (w.regions i) ≡ some a

pub new_world-IsPlaced : (heap : Heap) → IsPlaced (new_world heap)
unfolding new_world lookup
new_world-IsPlaced heap = record {
  once = λ i. tt;
  named = λ id a h. ground arith;
  shown = λ id i a h. ground arith;
  covers = λ id i a h. ground arith;
}

lookup-update_insert :
    (id : ℕ) (b : Address) (i j : Index) (id' : ℕ) (regions : Index → Objects)
    → lookup id' (update_region i (insert id b) regions j) ≡ (
        if eq_index i j
        then if id == id' then some b else lookup id' (regions j)
        else lookup id' (regions j))
lookup-update_insert id b i j id' regions = elim (Bool-cases (eq_index i j)) [
  | inl e ↦ rw e (lookup-insert id id' b (regions j))
  | inr e ↦ rw e refl
]

lookup-update_erase :
    (id : ℕ) (i j : Index) (id' : ℕ) (regions : Index → Objects)
    → lookup id' (update_region i (erase id) regions j) ≡ (
        if eq_index i j
        then if id == id' then none else lookup id' (regions j)
        else lookup id' (regions j))
lookup-update_erase id i j id' regions = elim (Bool-cases (eq_index i j)) [
  | inl e ↦ rw e (lookup-erase id id' (regions j))
  | inr e ↦ rw e refl
]

insert_iff :
    (id id' : ℕ) (a b : Address) (m : Objects)
    → (lookup id' (insert id a m) ≡ some b)
      ↔ (((id ≡ id') × (a ≡ b)) ⊎ ((id ≢ id') × (lookup id' m ≡ some b)))
insert_iff id id' a b m = ground (arith, lookup-insert id id' a m)

erase_iff :
    (id id' : ℕ) (b : Address) (m : Objects)
    → (lookup id' (erase id m) ≡ some b) ↔ ((id ≢ id') × (lookup id' m ≡ some b))
erase_iff id id' b m = ground (arith, lookup-erase id id' m)

module _ (id : ℕ) (i j : Index) (id' : ℕ) (regions : Index → Objects) (b : Address) where
  update_insert_iff :
      (a : Address)
      → (lookup id' (update_region i (insert id a) regions j) ≡ some b) ↔ (
          ((i ≡ j) × (id ≡ id') × (a ≡ b))
          ⊎ (((i ≢ j) ⊎ (id ≢ id')) × (lookup id' (regions j) ≡ some b)))
  update_insert_iff a = ground (arith, lookup-update_insert id a i j id' regions, eq_index_iff i j)

  update_erase_iff :
      (lookup id' (update_region i (erase id) regions j) ≡ some b)
      ↔ (((i ≢ j) ⊎ (id ≢ id')) × (lookup id' (regions j) ≡ some b))
  update_erase_iff = ground (arith, lookup-update_erase id i j id' regions, eq_index_iff i j)

IsOnce-update :
    (i : Index) (f : Objects → Objects) (regions : Index → Objects)
    → ((j : Index) → IsOnce (regions j))
    → ((m : Objects) → IsOnce m → IsOnce (f m))
    → (j : Index) → IsOnce (update_region i f regions j)
IsOnce-update i f regions once keeps j = elim (Bool-cases (eq_index i j)) [
  | inl e ↦ rw e (keeps (regions j) (once j))
  | inr e ↦ rw e (once j)
]

module _ (w : World) (p : IsPlaced w) where
  pub IsPlaced-add :
      (a : Address) (i : Index)
      → lookup (w.heap a).object_id w.objects ≡ none
      → region_of w.heap a ≡ some i
      → let id = (w.heap a).object_id in
        IsPlaced (record w {
          objects = insert id a w.objects;
          regions = update_region i (insert id a) w.regions;
        })
  IsPlaced-add a i fresh at =
      let id = (w.heap a).object_id in
      record {
        once = IsOnce-update i (insert id a) w.regions p.once (insert-IsOnce id a);
        named = λ id' b h. elim ((insert_iff id id' a b w.objects).0 h) [
          | inl (same_id, same_a) ↦ cc
          | inr (other, h') ↦ p.named id' b h'
        ];
        shown = λ id' j b h. elim ((update_insert_iff id i j id' w.regions b a).0 h) [
          | inl (same_i, same_id, same_a) ↦
              ((insert_iff id id' a b w.objects).1 (inl (same_id, same_a)), cc)
          | inr (other, h') ↦
              (let (stored, at_b) = p.shown id' j b h' in
                ((insert_iff id id' a b w.objects).1 (inr ((λ e. ground arith), stored)), at_b))
        ];
        covers = λ id' j b h at_b.
            (update_insert_iff id i j id' w.regions b a).1
              (elim ((insert_iff id id' a b w.objects).0 h) [
                | inl (same_id, same_a) ↦ inl (ground arith, same_id, same_a)
                | inr (other, h') ↦ inr (inr other, p.covers id' j b h' at_b)
              ]);
      }

  pub IsPlaced-remove :
      (id : ℕ) (a : Address) (i : Index)
      → lookup id w.objects ≡ some a
      → region_of w.heap a ≡ some i
      → IsPlaced (record w {
        objects = erase id w.objects;
        regions = update_region i (erase id) w.regions;
      })
  IsPlaced-remove id a i stored at = record {
    once = IsOnce-update i (erase id) w.regions p.once (erase-IsOnce id);
    named = λ id' b h. p.named id' b ((erase_iff id id' b w.objects).0 h).1;
    shown = λ id' j b h.
        let (other, h') = (update_erase_iff id i j id' w.regions b).0 h in
        let (stored_b, at_b) = p.shown id' j b h' in
        ((erase_iff id id' b w.objects).1 ((λ e. ground arith), stored_b), at_b);
    covers = λ id' j b h at_b.
        let (other, h') = (erase_iff id id' b w.objects).0 h in
        (update_erase_iff id i j id' w.regions b).1 (inr other, p.covers id' j b h' at_b);
  }

  pub IsPlaced-remove_outside :
      (id : ℕ) (a : Address)
      → lookup id w.objects ≡ some a
      → region_of w.heap a ≡ none
      → IsPlaced (record w { objects = erase id w.objects })
  IsPlaced-remove_outside id a stored at = record {
    once = p.once;
    named = λ id' b h. p.named id' b ((erase_iff id id' b w.objects).0 h).1;
    shown = λ id' j b h.
        let (stored_b, at_b) = p.shown id' j b h in
        ((erase_iff id id' b w.objects).1 ((λ e. ground arith), stored_b), at_b);
    covers = λ id' j b h at_b. p.covers id' j b ((erase_iff id id' b w.objects).0 h).1 at_b;
  }
