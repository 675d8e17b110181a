-- ===== src/World/Grid/Surrounding.antt =====
-- The regions around a region: the regions of the grid at a distance of at most one in both
-- directions, each once.
use la2go.Prelude.{
  ℕ, ◌+◌, ◌*◌, ◌≡◌, sym, ap, ◌∙◌, List, [], ◌∷◌, ◌++◌, Bool, true, false, ◌&&◌, if◌then◌else◌, leb,
  arith, Bool-cases, inl, inr,
}
use la2go.Prelude.Int.{ℤ, pos, negsuc, ◌+ℤ◌, ◌-ℤ◌, eq_ℤ, pos_part, neg_part, eq_ℤ_iff}
use la2go.World.Grid.{Index, eq_index, is_valid_region_index, surrounding_regions, keep_valid}

abbrev pub indicator : Bool → ℕ
indicator true = 1
indicator false = 0

-- How often an index stands in a list.
abbrev pub times : Index → List Index → ℕ
times j [] = 0
times j (i ∷ is) = indicator (eq_index i j) + times j is

abbrev leb_ℤ : ℤ → ℤ → Bool
leb_ℤ a b = leb (pos_part a + neg_part b) (pos_part b + neg_part a)

-- A distance of at most one.
unfoldable pub near_axis : ℤ → ℤ → Bool
unfolding ◌+ℤ◌ ◌-ℤ◌
near_axis r x = leb_ℤ (r -ℤ pos 1) x && leb_ℤ x (r +ℤ pos 1)

abbrev pub near : Index → Index → Bool
near (rx, ry) (sx, sy) = near_axis rx sx && near_axis ry sy

times-append : (j : Index) (is ks : List Index) → times j (is ++ ks) ≡ times j is + times j ks
times-append j [] ks = ground arith
times-append j (i ∷ is) ks = ground (arith, times-append j is ks)

near_axis_lem :
    (r x : ℤ)
    → indicator (eq_ℤ (r +ℤ negsuc 0) x)
        + (indicator (eq_ℤ (r +ℤ pos 0) x) + indicator (eq_ℤ (r +ℤ pos 1) x))
      ≡ indicator (near_axis r x)
unfolding near_axis ◌+ℤ◌ ◌-ℤ◌
near_axis_lem (pos r) (pos x) = ground arith
near_axis_lem (pos r) (negsuc x) = ground arith
near_axis_lem (negsuc r) (pos x) = ground arith
near_axis_lem (negsuc r) (negsuc x) = ground arith

times-keep_valid :
    (kx ky jx jy : ℤ)
    → times (jx, jy) (keep_valid (kx, ky))
      ≡ indicator (is_valid_region_index (jx, jy))
        * (indicator (eq_ℤ kx jx) * indicator (eq_ℤ ky jy))
times-keep_valid kx ky jx jy = elim (Bool-cases (eq_ℤ kx jx && eq_ℤ ky jy)) [
  | inl e ↦
      (let same_x : kx ≡ jx = (eq_ℤ_iff kx jx).0 (ground arith) in
        let same_y : ky ≡ jy = (eq_ℤ_iff ky jy).0 (ground arith) in
        rw (sym same_x, sym same_y) (ground arith))
  | inr e ↦ ground arith
]

distribute : (v a b c d : ℕ) → v * (a * b) + (v * (a * c) + v * (a * d)) ≡ v * (a * (b + (c + d)))
distribute v a b c d = grind arith

distribute_right :
    (v a b c d : ℕ) → v * (a * d) + (v * (b * d) + v * (c * d)) ≡ v * ((a + (b + c)) * d)
distribute_right v a b c d = grind arith

cong_three : {a b c a' b' c' : ℕ} → a ≡ a' → b ≡ b' → c ≡ c' → a + (b + c) ≡ a' + (b' + c')
cong_three p q r = cc

times_three :
    (j : Index) (a b c : List Index) → times j (a ++ (b ++ c)) ≡ times j a + (times j b + times j c)
times_three j a b c = times-append j a (b ++ c) ∙ ap (λ (n : ℕ). times j a + n) (times-append j b c)

row : ℤ → ℤ → ℤ → List Index
unfolding ◌+ℤ◌
row rx ry dx =
    keep_valid (rx +ℤ dx, ry +ℤ negsuc 0)
    ++ (keep_valid (rx +ℤ dx, ry +ℤ pos 0) ++ keep_valid (rx +ℤ dx, ry +ℤ pos 1))

all_three :
    (p q r : Bool) → indicator p * (indicator q * indicator r) ≡ (if p && (q && r) then 1 else 0)
all_three p q r = ground arith

module _ (rx ry jx jy : ℤ) where
  times-row :
      (dx : ℤ)
      → times (jx, jy) (row rx ry dx)
        ≡ indicator (is_valid_region_index (jx, jy))
          * (indicator (eq_ℤ (rx +ℤ dx) jx) * indicator (near_axis ry jy))
  unfolding row
  times-row dx =
      let x = rx +ℤ dx in
      let v = indicator (is_valid_region_index (jx, jy)) in
      let a = indicator (eq_ℤ x jx) in
      let hit = λ (dy : ℤ). times-keep_valid x (ry +ℤ dy) jx jy in
      times_three (jx, jy) _ _ _
      ∙ (cong_three (hit (negsuc 0)) (hit (pos 0)) (hit (pos 1))
          ∙ (distribute v a _ _ _ ∙ ap (λ (n : ℕ). v * (a * n)) (near_axis_lem ry jy)))

-- Of the indexes around one, each that is in the grid and near to it is listed once, and no other.
pub times-surrounding_regions :
    (i j : Index)
    → times j (surrounding_regions i) ≡ (if is_valid_region_index j && near i j then 1 else 0)
unfolding surrounding_regions row
times-surrounding_regions (rx, ry) (jx, jy) =
    let v = indicator (is_valid_region_index (jx, jy)) in
    let b = indicator (near_axis ry jy) in
    let hit = times-row rx ry jx jy in
    times_three (jx, jy) _ _ _
    ∙ (cong_three (hit (negsuc 0)) (hit (pos 0)) (hit (pos 1))
        ∙ (distribute_right v _ _ _ b
            ∙ (ap (λ (n : ℕ). v * (n * b)) (near_axis_lem rx jx) ∙ all_three _ _ _)))
