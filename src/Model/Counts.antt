-- ===== src/Model/Counts.antt =====
-- The count and the enchant level of an item that any calls have changed.
use la2go.Prelude.{
  ℕ, ◌-◌, ◌^◌, ◌≡◌, refl, Bool, true, false, not, ◌&&◌, if◌then◌else◌, Bool-cases, inl, inr, ok,
  err, guard-eq-ok, ok-injective, invalid_item_count, negative_enchant, arith,
}
use la2go.Prelude.Int.{ℤ, pos, ◌+ℤ◌, ◌≤ℤ◌, ltb_ℤ, IsInt}
use la2go.Ai.TickManager.{wrap_int32}
use la2go.Model.Item.{
  Item, ItemLocation, new_item, set_count, add_count, set_enchant, set_item_location, set_item_id,
}

abbrev pub IsCount : ℤ → Type 0
IsCount n = (pos 1 ≤ℤ n) × (n ≤ℤ pos (2 ^ 31 - 1))

-- A call of a setter of an item, which takes int32 numbers.
pub data ItemStep (i : Item) : Item → Type 0 where
  sets_count : (n : ℤ) (i' : Item) → IsInt (2 ^ 31) n → set_count n i ≡ ok i' → ItemStep i i'
  adds_count : (delta : ℤ) (i' : Item) → add_count delta i ≡ ok i' → ItemStep i i'
  sets_enchant : (n : ℤ) (i' : Item) → set_enchant n i ≡ ok i' → ItemStep i i'
  sets_location : (loc : ItemLocation) (slot_id : ℤ) → ItemStep i (set_item_location loc slot_id i)
  sets_item_id : (id : ℤ) → ItemStep i (set_item_id id i)

-- An item that NewItem has made, after any calls.
pub data ReachableItem : Item → Type 0 where
  created :
      (owner_id item_type count : ℤ) {i : Item}
      → IsInt (2 ^ 31) count
      → new_item owner_id item_type count ≡ ok i
      → ReachableItem i
  altered : {i i' : Item} → ReachableItem i → ItemStep i i' → ReachableItem i'

abbrev pub IsSound : Item → Type 0
IsSound i = IsCount i.count × (pos 0 ≤ℤ i.enchant)

positive-IsCount : (n : ℤ) → ltb_ℤ (pos 0) n ≡ true → IsInt (2 ^ 31) n → IsCount n
positive-IsCount n h g = ground arith

wrapped-IsCount : (n : ℤ) → ltb_ℤ (pos 0) (wrap_int32 n) ≡ true → IsCount (wrap_int32 n)
wrapped-IsCount n h = ground arith

step-IsSound : {i i' : Item} → ItemStep i i' → IsSound i → IsSound i'
unfolding set_count add_count set_enchant set_item_location set_item_id
step-IsSound {i} (sets_count n i' int e) (count, enchant) =
    let (more, same) = guard-eq-ok (ltb_ℤ (pos 0) n) invalid_item_count _ e in
    rw (← ok-injective (record i { count = n }) i' same) (positive-IsCount n more int, enchant)
step-IsSound {i} (adds_count delta i' e) (count, enchant) =
    let n = wrap_int32 (i.count +ℤ delta) in
    let (more, same) = guard-eq-ok (ltb_ℤ (pos 0) n) invalid_item_count _ e in
    rw (← ok-injective (record i { count = n }) i' same)
      (wrapped-IsCount (i.count +ℤ delta) more, enchant)
step-IsSound {i} (sets_enchant n i' e) (count, enchant) =
    let (low, same) = guard-eq-ok (not (ltb_ℤ n (pos 0))) negative_enchant _ e in
    rw (← ok-injective (record i { enchant = n }) i' same) (count, ground arith)
step-IsSound (sets_location loc slot_id) k = k
step-IsSound (sets_item_id id) k = k

-- An item that NewItem accepts keeps, whatever calls follow, a count from 1 to the largest int32 and
-- an enchant level that is not negative.
ReachableItem-IsSound : {i : Item} → ReachableItem i → IsSound i
unfolding new_item
ReachableItem-IsSound {i} (created owner_id item_type count int e) =
    let (more, same) = guard-eq-ok (ltb_ℤ (pos 0) count) invalid_item_count _ e in
    rw (← ok-injective _ i same) (positive-IsCount count more int, omega arith)
ReachableItem-IsSound (altered before step) = step-IsSound step (ReachableItem-IsSound before)

-- Whether a sum is a count.
abbrev pub count_fits : ℤ → Bool
count_fits n = ltb_ℤ (pos 0) n && ltb_ℤ n (pos (2 ^ 31))

count_sum :
    (n : ℕ) (delta : ℤ)
    → IsCount (pos n)
    → IsInt (2 ^ 31) delta
    → count_fits (pos n +ℤ delta) ≡ true
    → wrap_int32 (pos n +ℤ delta) ≡ pos n +ℤ delta
unfolding ◌+ℤ◌
count_sum n delta h g fits = ground arith

count_overflow :
    (n : ℕ) (delta : ℤ)
    → IsCount (pos n)
    → IsInt (2 ^ 31) delta
    → count_fits (pos n +ℤ delta) ≡ false
    → ltb_ℤ (pos 0) (wrap_int32 (pos n +ℤ delta)) ≡ false
unfolding ◌+ℤ◌
count_overflow n delta h g fits = ground arith

-- A count that is added to, or taken from, an item is added exactly, and refused with an error where
-- the sum is not positive or above the largest int32.
add_count_lem :
    (delta : ℤ) (i : Item) (n : ℕ)
    → i.count ≡ pos n
    → IsCount (pos n)
    → IsInt (2 ^ 31) delta
    → add_count delta i ≡ (
        if count_fits (pos n +ℤ delta)
        then ok (record i { count = pos n +ℤ delta })
        else err invalid_item_count)
unfolding add_count
add_count_lem delta i n same h g = elim (Bool-cases (count_fits (pos n +ℤ delta))) [
  | inl fits ↦
      (let more : ltb_ℤ (pos 0) (pos n +ℤ delta) ≡ true = ground arith in
        rw (same, count_sum n delta h g fits, fits, more) refl)
  | inr fits ↦ rw (same, fits, count_overflow n delta h g fits) refl
]
