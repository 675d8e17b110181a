-- ===== src/World/Visibility/Players.antt =====
-- What players see by the cache and without it.
use mathlib.Core.List.{append_assoc, append-nil}
use la2go.Prelude.{
  ◌/◌, List, [], ◌∷◌, ◌++◌, ◌≡◌, ◌⊎◌, refl, sym, ap, ◌∙◌, inl, inr, Bool, true, false, Bool-cases,
  arith, some,
}
use la2go.Prelude.Int.{ℤ, pos, negsuc, ◌-ℤ◌, ◌≤ℤ◌}
use la2go.World.Grid.{Index, is_valid_region_index, coord_to_region_index, surrounding_regions}
use la2go.World.Objects.{World, Address, Objects, get_region, get_region_by_index}
use la2go.World.Visibility.Loops.{addresses, shown_objects, sweep-range_visible}
use la2go.World.Visibility.{
  Player, get_visible_objects, update_player_cache, is_current, is_stale, is_valid_for_region,
  range_visible, sweep, append_object,
}

-- The index of a region of the grid, taken for coordinates, lies in the region (64, 128).
index_as_coord :
    (rx ry : ℤ) → is_valid_region_index (rx, ry) ≡ true → get_region rx ry ≡ some (pos 64, pos 128)
unfolding is_valid_region_index get_region get_region_by_index coord_to_region_index
index_as_coord (pos rx) (pos ry) h =
    let x_zero : rx / 2048 ≡ 0 = ground arith in
    let y_zero : ry / 2048 ≡ 0 = ground arith in rw (x_zero, y_zero) refl
index_as_coord (pos rx) (negsuc ry) h = ground arith
index_as_coord (negsuc rx) ry h = ground arith

range_visible-append_object :
    (objects : List Address) (m : Objects)
    → range_visible append_object objects m ≡ (objects ++ addresses m, true)
unfolding range_visible
range_visible-append_object objects [] =
    ap (λ (l : List Address). (l, true)) (sym (append-nil objects))
range_visible-append_object objects ((id, a) ∷ m) =
    range_visible-append_object (objects ++ (a ∷ [])) m
    ∙ ap (λ (l : List Address). (l, true)) (append_assoc objects (a ∷ []) (addresses m))

-- Whatever region of the grid a player is in, the visible objects collected for it are those of the
-- region (64, 128), and after them those of the regions around (64, 128), itself among them.
pub get_visible_objects_lem :
    (w : World) (i : Index)
    → is_valid_region_index i ≡ true
    → let middle : Index = (pos 64, pos 128) in
      get_visible_objects w i
      ≡ addresses (w.regions middle) ++ addresses (shown_objects w (surrounding_regions middle))
unfolding get_visible_objects
get_visible_objects_lem w (rx, ry) h =
    let middle : Index = (pos 64, pos 128) in
    let own = w.regions middle in
    let around = surrounding_regions middle in
    let start = (range_visible append_object [] own).0 in
    let collected : get_visible_objects w (rx, ry) ≡ sweep w append_object start around =
      rw (index_as_coord rx ry h, get_visible_objects) refl in
    collected
    ∙ (sweep-range_visible append_object w start around
        ∙ (ap (λ (r : List Address × Bool). r.0)
              (range_visible-append_object start (shown_objects w around))
            ∙ ap (λ (r : List Address × Bool). r.0 ++ addresses (shown_objects w around))
                (range_visible-append_object [] own)))

new_cache-is_current :
    (max_age checked now : ℤ) (i : Index) (objects : List Address)
    → pos 0 ≤ℤ max_age
    → checked ≤ℤ now
    → is_current checked max_age i
        (some (record { objects = objects; last_update = now; region_x = i.0; region_y = i.1 }))
      ≡ true
unfolding is_current is_stale is_valid_for_region ◌-ℤ◌
new_cache-is_current max_age checked now (rx, ry) objects h order = ground arith

-- After an update the player has a cache that is made for its region and that is not too old, either
-- the one from before or a new one with the objects visible now; the location stays.
pub update_player_cache_lem :
    (w : World) (max_age checked now : ℤ) (player : Player)
    → pos 0 ≤ℤ max_age
    → checked ≤ℤ now
    → let i = coord_to_region_index player.location.x player.location.y in
      let (updated, after) = update_player_cache w max_age checked now player in
      (is_current checked max_age i after.visibility_cache ≡ true)
      × ((updated ≡ false) × (after ≡ player)
          ⊎ ((updated ≡ true)
              × (is_current checked max_age i player.visibility_cache ≡ false)
              × (after.location ≡ player.location)))
unfolding update_player_cache
update_player_cache_lem w max_age checked now player h order =
    let i = coord_to_region_index player.location.x player.location.y in
    elim (Bool-cases (is_current checked max_age i player.visibility_cache)) [
      | inl e ↦ rw (e, update_player_cache) (e, inl (refl, refl))
      | inr e ↦
          rw (e, update_player_cache)
            (new_cache-is_current max_age checked now i _ h order, inr (refl, refl, refl))
    ]
