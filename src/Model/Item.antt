-- ===== src/Model/Item.antt =====
-- internal/model/item.go, without the time of creation and the names of the item locations.
use la2go.Prelude.{Bool, not, Result, ok, guard, ◌>>◌, invalid_item_count, negative_enchant}
use la2go.Prelude.Int.{ℤ, pos, negsuc, ◌+ℤ◌, ltb_ℤ, eq_ℤ}
use la2go.Ai.TickManager.{wrap_int32}

-- An `ItemLocation` is an int32, of which the four from 0 on have names.
abbrev pub ItemLocation : Type 0
ItemLocation = ℤ

abbrev pub item_location_inventory : ItemLocation
item_location_inventory = pos 1

abbrev pub item_location_paperdoll : ItemLocation
item_location_paperdoll = pos 2

pub record Item : Type 0 where
  pub item_id : ℤ
  pub owner_id : ℤ
  pub item_type : ℤ
  pub count : ℤ
  pub enchant : ℤ
  pub location : ItemLocation
  pub slot_id : ℤ

unfoldable pub new_item : ℤ → ℤ → ℤ → Result Item
new_item owner_id item_type count =
    guard (ltb_ℤ (pos 0) count) invalid_item_count
    >> ok (record {
      item_id = pos 0;
      owner_id = owner_id;
      item_type = item_type;
      count = count;
      enchant = pos 0;
      location = item_location_inventory;
      slot_id = negsuc 0;
    })

unfoldable pub set_count : ℤ → Item → Result Item
set_count count i =
    guard (ltb_ℤ (pos 0) count) invalid_item_count >> ok (record i { count = count })

unfoldable pub add_count : ℤ → Item → Result Item
unfolding ◌+ℤ◌
add_count delta i =
    let new_count = wrap_int32 (i.count +ℤ delta) in
    guard (ltb_ℤ (pos 0) new_count) invalid_item_count >> ok (record i { count = new_count })

unfoldable pub set_enchant : ℤ → Item → Result Item
set_enchant enchant i =
    guard (not (ltb_ℤ enchant (pos 0))) negative_enchant >> ok (record i { enchant = enchant })

unfoldable pub set_item_location : ItemLocation → ℤ → Item → Item
set_item_location loc slot_id i = record i { location = loc; slot_id = slot_id }

unfoldable pub set_item_id : ℤ → Item → Item
set_item_id id i = record i { item_id = id }

unfoldable pub is_equipped : Item → Bool
is_equipped i = eq_ℤ i.location item_location_paperdoll

unfoldable pub is_in_inventory : Item → Bool
is_in_inventory i = eq_ℤ i.location item_location_inventory
