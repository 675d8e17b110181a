-- ===== src/Prelude/Assoc.antt =====
-- Go's maps with numbers as keys, as association lists with at most one entry for a key. The order of
-- the entries stands for the order in which `range` happens to visit them.
use Prim.Native.Nat.{ℕ, suc}
use mathlib.Core.Path.{◌≡◌, refl, sym, ap}
use mathlib.Core.Logic.{inl, inr}
use mathlib.Core.Bool.{true}
use mathlib.Core.Option.{Option, none, some}
use mathlib.Core.List.{List, [], ◌∷◌}
use native.Mathlib.Omega.{arith}
use la2go.Prelude.Lists.{length}
use la2go.Prelude.Tests.{◌==◌, if◌then◌else◌, Bool-cases}

module _ {ℓ} {V : Type ℓ} where
  unfoldable pub lookup : ℕ → List (ℕ × V) → Option V
  lookup k [] = none
  lookup k ((j, v) ∷ m) = if j == k then some v else lookup k m

  unfoldable pub erase : ℕ → List (ℕ × V) → List (ℕ × V)
  erase k [] = []
  erase k ((j, v) ∷ m) = let rest = erase k m in if j == k then rest else (j, v) ∷ rest

  unfoldable pub insert : ℕ → V → List (ℕ × V) → List (ℕ × V)
  insert k v m = (k, v) ∷ erase k m

  -- No key twice.
  abbrev pub IsOnce : List (ℕ × V) → Type ℓ
  IsOnce [] = Unit {ℓ}
  IsOnce ((k, v) ∷ m) = (lookup k m ≡ none) × IsOnce m

  pub lookup-erase :
      (k j : ℕ) (m : List (ℕ × V)) → lookup j (erase k m) ≡ (if k == j then none else lookup j m)
  unfolding lookup erase
  lookup-erase k j [] = ground arith
  lookup-erase k j ((i, v) ∷ m) = ground (arith, lookup-erase k j m)

  pub lookup-insert :
      (k j : ℕ) (v : V) (m : List (ℕ × V))
      → lookup j (insert k v m) ≡ (if k == j then some v else lookup j m)
  unfolding lookup insert
  lookup-insert k j v m = ground (arith, lookup-erase k j m)

  pub erase-IsOnce : (k : ℕ) (m : List (ℕ × V)) → IsOnce m → IsOnce (erase k m)
  unfolding erase
  erase-IsOnce k [] h = h
  erase-IsOnce k ((j, v) ∷ m) (h, once) = elim (Bool-cases (j == k)) [
    | inl e ↦ rw e (erase-IsOnce k m once)
    | inr e ↦ rw e (rw (lookup-erase k j m) (ground arith), erase-IsOnce k m once)
  ]

  pub insert-IsOnce : (k : ℕ) (v : V) (m : List (ℕ × V)) → IsOnce m → IsOnce (insert k v m)
  unfolding insert
  insert-IsOnce k v m once = (
    (let e : (k == k) ≡ true = ground arith in rw (lookup-erase k k m, e) refl),
    erase-IsOnce k m once,
  )

  pub erase-absent : (k : ℕ) (m : List (ℕ × V)) → lookup k m ≡ none → erase k m ≡ m
  unfolding lookup erase
  erase-absent k [] h = refl
  erase-absent k ((j, v) ∷ m) h = elim (Bool-cases (j == k)) [
    | inl e ↦ absurd (ground arith)
    | inr e ↦ rw (e, erase-absent k m (ground arith)) refl
  ]

  pub length-erase :
      (k : ℕ) (m : List (ℕ × V)) (v : V)
      → IsOnce m
      → lookup k m ≡ some v
      → suc (length (erase k m)) ≡ length m
  unfolding lookup erase
  length-erase k [] u once h = ground arith
  length-erase k ((j, v) ∷ m) u (free, once) h = elim (Bool-cases (j == k)) [
    | inl e ↦
        (let same : j ≡ k = ground arith in rw (e, erase-absent k m (rw (sym same) free)) refl)
    | inr e ↦ rw (e, ap suc (length-erase k m u once (ground (arith, h, e)))) refl
  ]

  unfoldable pub map_values : (V → V) → List (ℕ × V) → List (ℕ × V)
  map_values f [] = []
  map_values f ((k, v) ∷ m) = (k, f v) ∷ map_values f m

  pub length-map_values : (f : V → V) (m : List (ℕ × V)) → length (map_values f m) ≡ length m
  unfolding map_values
  length-map_values f [] = refl
  length-map_values f ((k, v) ∷ m) = ap suc (length-map_values f m)

  pub lookup-map_values :
      (f : V → V) (j : ℕ) (m : List (ℕ × V)) → lookup j m ≡ none → lookup j (map_values f m) ≡ none
  unfolding lookup map_values
  lookup-map_values f j [] h = refl
  lookup-map_values f j ((k, v) ∷ m) h = ground (arith, lookup-map_values f j m)

  pub map_values-IsOnce : (f : V → V) (m : List (ℕ × V)) → IsOnce m → IsOnce (map_values f m)
  unfolding map_values
  map_values-IsOnce f [] once = once
  map_values-IsOnce f ((k, v) ∷ m) (free, once) =
      (lookup-map_values f k m free, map_values-IsOnce f m once)
