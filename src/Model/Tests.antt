-- ===== src/Model/Tests.antt =====
-- Runs of the setters, and an instance of each law.
use la2go.Prelude.{ℕ, ◌-◌, ◌^◌, ◌≡◌, refl, List, [], ◌∷◌, if◌then◌else◌, ok, arith, true}
use la2go.Prelude.Int.{ℤ, pos, negsuc, ◌+ℤ◌, ◌-ℤ◌, ltb_ℤ}
use la2go.World.Objects.{Location}
use la2go.Model.Character.{at_least, set_current_hp, is_dead, new_character}
use la2go.Model.Player.{Player, new_player, add_experience, set_level}
use la2go.Model.Item.{Item, new_item}
use la2go.Model.Bounds.{
  ReachablePlayer, made, changed, steps, IsBoundedPlayer, ReachablePlayer-IsBoundedPlayer,
  sets_current_hp,
}
use la2go.Model.Experience.{add_experience_lem}
use la2go.Model.Counts.{ReachableItem, created}
use la2go.Model.Distance.{distance_squared}

abbrev hero_name : List ℕ
hero_name = 65 ∷ 66 ∷ []

abbrev hero : Player
hero = record {
  character = (record {
    object = (record {
      object_id = 0;
      location = (record { x = pos 0; y = pos 0; z = pos 0; heading = 0 });
    });
    name = hero_name;
    level = pos 10;
    current_hp = pos 1500;
    max_hp = pos 1500;
    current_mp = pos 750;
    max_mp = pos 750;
    current_cp = pos 1200;
    max_cp = pos 1200;
  });
  character_id = pos 1;
  account_id = pos 2;
  level = pos 10;
  race_id = pos 0;
  class_id = pos 0;
  experience = pos 0;
}

new_player-hero : new_player (pos 1) (pos 2) hero_name (pos 10) (pos 0) (pos 0) ≡ ok hero
unfolding new_player new_character ◌+ℤ◌
new_player-hero = refl

-- Two bytes are enough for a name, also where they are the code of one letter.
one_letter :
    (p : Player) × (new_player (pos 1) (pos 2) (0xD0 ∷ 0x96 ∷ []) (pos 10) (pos 0) (pos 0) ≡ ok p)
unfolding new_player
one_letter = (_, refl)

-- After a level is set, the level of the character is the one from before.
levels_apart :
    (p : Player) × (set_level (pos 20) hero ≡ ok p)
    × (p.level ≡ pos 20)
    × (p.character.level ≡ pos 10)
unfolding set_level
levels_apart = (_, refl, refl, refl)

hero_hurt : ReachablePlayer (record hero { character = set_current_hp (negsuc 4) hero.character })
hero_hurt =
    changed (made (pos 1) (pos 2) hero_name (pos 10) (pos 0) (pos 0) new_player-hero)
      (steps _ (sets_current_hp (negsuc 4)))

hero_dead : is_dead (set_current_hp (negsuc 4) hero.character) ≡ true
unfolding is_dead set_current_hp
hero_dead = refl

ReachablePlayer-IsBoundedPlayer_example :
    IsBoundedPlayer (record hero { character = set_current_hp (negsuc 4) hero.character })
ReachablePlayer-IsBoundedPlayer_example = ReachablePlayer-IsBoundedPlayer hero_hurt

add_experience_lem_example :
    (add_experience (pos 1) (record hero { experience = pos (2 ^ 63 - 1) })).experience ≡ (
      if ltb_ℤ (pos (2 ^ 63 - 1) +ℤ pos 1) (pos (2 ^ 63))
      then at_least (pos 0) (pos (2 ^ 63 - 1) +ℤ pos 1)
      else pos 0)
add_experience_lem_example =
    add_experience_lem (pos 1) (record hero { experience = pos (2 ^ 63 - 1) }) (2 ^ 63 - 1) refl
      (omega arith) (omega arith, omega arith)

abbrev coins : Item
coins = record {
  item_id = pos 0;
  owner_id = pos 1;
  item_type = pos 57;
  count = pos 100;
  enchant = pos 0;
  location = pos 1;
  slot_id = negsuc 0;
}

coins-Reachable : ReachableItem coins
coins-Reachable =
    let e : new_item (pos 1) (pos 57) (pos 100) ≡ ok coins = unfold new_item in refl in
    created (pos 1) (pos 57) (pos 100) (omega arith, omega arith) e

abbrev spot : ℤ → Location
spot x = record { x = x; y = pos 0; z = pos 0; heading = 0 }

-- The two ends of the range are far apart, but the difference wraps around to 1.
distance_wrapped : distance_squared (spot (negsuc (2 ^ 31 - 1))) (spot (pos (2 ^ 31 - 1))) ≡ pos 1
unfolding distance_squared ◌-ℤ◌
distance_wrapped = refl
