-- ===== src/World/Grid.antt =====
-- internal/world/grid.go and `getSurroundingRegions` of world.go. Coordinates are int32; one shifted
-- right by 11 leaves room for the offset, so that only `RegionIndexToCoord` can wrap around.
pub mod Laws
pub mod Surrounding
use la2go.Prelude.{ℕ, ◌+◌, ◌*◌, ◌/◌, ◌^◌, List, [], ◌∷◌, ◌++◌, Bool, ◌&&◌, if◌then◌else◌}
use la2go.Prelude.Int.{ℤ, pos, negsuc, ◌+ℤ◌, ◌-ℤ◌, ltb_ℤ, eq_ℤ, int32, word}

abbrev pub offset_x : ℤ
offset_x = pos 64

abbrev pub offset_y : ℤ
offset_y = pos 128

abbrev pub regions_x : ℤ
regions_x = pos 160

abbrev pub regions_y : ℤ
regions_y = pos 241

-- `z >> ShiftBy` rounds towards minus infinity.
abbrev pub shift_right : ℤ → ℤ
shift_right (pos n) = pos (n / 2048)
shift_right (negsuc n) = negsuc (n / 2048)

-- What an int32 operation leaves of an integer.
abbrev pub wrap : ℤ → ℤ
wrap z = int32 (word (2 ^ 32) z)

abbrev pub shift_left : ℤ → ℤ
shift_left (pos n) = wrap (pos (n * 2048))
shift_left (negsuc n) = wrap (negsuc (n * 2048 + 2047))

abbrev pub Index : Type 0
Index = ℤ × ℤ

abbrev pub eq_index : Index → Index → Bool
eq_index (rx, ry) (sx, sy) = eq_ℤ rx sx && eq_ℤ ry sy

unfoldable pub coord_to_region_index : ℤ → ℤ → Index
unfolding ◌+ℤ◌
coord_to_region_index x y = (shift_right x +ℤ offset_x, shift_right y +ℤ offset_y)

unfoldable pub is_valid_region_index : Index → Bool
is_valid_region_index (rx, ry) =
    ltb_ℤ (negsuc 0) rx && ltb_ℤ rx regions_x && ltb_ℤ (negsuc 0) ry && ltb_ℤ ry regions_y

unfoldable pub region_index_to_coord : Index → ℤ × ℤ
unfolding ◌+ℤ◌ ◌-ℤ◌
region_index_to_coord (rx, ry) = (
  wrap (shift_left (wrap (rx -ℤ offset_x)) +ℤ pos 1024),
  wrap (shift_left (wrap (ry -ℤ offset_y)) +ℤ pos 1024),
)

abbrev pub keep_valid : Index → List Index
keep_valid i = if is_valid_region_index i then i ∷ [] else []

-- The nine pairs of the two loops, dx outside and dy inside, as far as they are in the grid.
unfoldable pub surrounding_regions : Index → List Index
unfolding is_valid_region_index ◌+ℤ◌
surrounding_regions (rx, ry) =
    let row = λ (dx : ℤ).
      keep_valid (rx +ℤ dx, ry +ℤ negsuc 0)
      ++ (keep_valid (rx +ℤ dx, ry +ℤ pos 0) ++ keep_valid (rx +ℤ dx, ry +ℤ pos 1)) in
    row (negsuc 0) ++ (row (pos 0) ++ row (pos 1))
