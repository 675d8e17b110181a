-- ===== src/World/Grid/Laws.antt =====
-- Which coordinates lie in the grid, and which region a region's centre lies in.
use la2go.Prelude.{ℕ, ◌-◌, ◌<◌, ◌≤◌, ◌≡◌, ◌↔◌, refl, true, arith, ◌⊎◌, inl, inr}
use la2go.Prelude.Int.{ℤ, pos, negsuc, ◌+ℤ◌, ◌-ℤ◌, ◌≤ℤ◌}
use la2go.World.Grid.{
  Index, coord_to_region_index, is_valid_region_index, region_index_to_coord, shift_right, wrap,
  shift_left,
}

-- A pair of coordinates is in a region of the grid exactly if x is from -131072 to 196607 and y from
-- -262144 to 231423.
coord_to_region_index-valid :
    (x y : ℤ)
    → (is_valid_region_index (coord_to_region_index x y) ≡ true)
      ↔ ((negsuc 131071 ≤ℤ x) × (x ≤ℤ pos 196607) × (negsuc 262143 ≤ℤ y) × (y ≤ℤ pos 231423))
unfolding is_valid_region_index coord_to_region_index
coord_to_region_index-valid (pos x) (pos y) = ground arith
coord_to_region_index-valid (pos x) (negsuc y) = ground arith
coord_to_region_index-valid (negsuc x) (pos y) = ground arith
coord_to_region_index-valid (negsuc x) (negsuc y) = ground arith

sub_ℤ_cases :
    (a b : ℕ)
    → ((b ≤ a) × (pos a -ℤ pos b ≡ pos (a - b))) ⊎ ((a < b) × (pos a -ℤ pos b ≡ negsuc (b - a - 1)))
unfolding ◌-ℤ◌
sub_ℤ_cases a b = ground arith

middle : ℤ → ℤ
middle z = wrap (shift_left (wrap z) +ℤ pos 1024)

middle_pos : (d : ℕ) → d < 241 → shift_right (middle (pos d)) ≡ pos d
unfolding middle ◌+ℤ◌
middle_pos d h = ground arith

middle_negsuc : (d : ℕ) → d < 241 → shift_right (middle (negsuc d)) ≡ negsuc d
unfolding middle ◌+ℤ◌
middle_negsuc d h = ground arith

-- The middle of the region with the index `r`, in one direction with its offset.
axis_middle :
    (r offset : ℕ)
    → r < 241
    → offset ≤ 128
    → shift_right (wrap (shift_left (wrap (pos r -ℤ pos offset)) +ℤ pos 1024)) +ℤ pos offset ≡ pos r
unfolding ◌+ℤ◌ middle
axis_middle r offset below small = elim (sub_ℤ_cases r offset) [
  | inl (h, e) ↦ rw (e, middle_pos (r - offset) (omega arith)) (ground arith)
  | inr (h, e) ↦ rw (e, middle_negsuc (offset - r - 1) (omega arith)) (ground arith)
]

-- The centre of a region of the grid lies in that region.
pub coord_to_region_index-region_index_to_coord :
    (i : Index)
    → is_valid_region_index i ≡ true
    → let (x, y) = region_index_to_coord i in coord_to_region_index x y ≡ i
unfolding is_valid_region_index coord_to_region_index region_index_to_coord
coord_to_region_index-region_index_to_coord (pos rx, pos ry) h =
    let x_small : rx < 160 = ground arith in
    let y_small : ry < 241 = ground arith in
    rw
      (
        axis_middle rx 64 (omega arith) (omega arith),
        axis_middle ry 128 (omega arith) (omega arith),
      )
      refl
coord_to_region_index-region_index_to_coord (pos rx, negsuc ry) h = ground arith
coord_to_region_index-region_index_to_coord (negsuc rx, ry) h = ground arith
