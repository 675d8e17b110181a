-- ===== src/Registry/Table/Search.antt =====
-- The search of a free id in the bitmap (internal/gameserver/table.go, `firstAvailableID`) against a
-- search of the map itself.
use la2go.Prelude.{
  ℕ, zero, suc, ◌+◌, ◌-◌, ◌≤◌, ◌<◌, ◌≡◌, ◌≢◌, refl, sym, ap, inl, inr, min, Bool, true, false, not,
  if◌then◌else◌, Option, none, some, ltb, leb, ◌==◌, Bool-cases, arith, ◌∙◌,
}
use la2go.Registry.Info.{GameServerInfo}
use la2go.Registry.Table.{
  Word64, GameServerTable, is_none, first_free, first_available_id, get_by_id,
}

-- The bit of an id, wherever it is kept.
unfoldable pub is_free : GameServerTable → ℕ → Bool
is_free t id = if ltb id 64 then t.free_low id else t.free_high (id - 64)

-- Whether the map has no entry.
unfoldable pub unregistered : GameServerTable → ℕ → Bool
unregistered t id = is_none (get_by_id id t)

-- The bitmap tells of every id from 1 to 127 whether the map has no entry for it.
pub record Consistent (t : GameServerTable) : Type 0 where
  pub agree : (id : ℕ) → 1 ≤ id → id ≤ 127 → is_free t id ≡ unregistered t id

true≢false : true ≢ false
true≢false e = cc

pub is_none-none : (o : Option GameServerInfo) → is_none o ≡ true → o ≡ none
is_none-none none e = refl
is_none-none (some info) e = cc

-- Two searches agree where their bits do.
first_free_ext :
    (a b : Word64) (from left : ℕ)
    → ((i : ℕ) → from ≤ i → i < from + left → a i ≡ b i)
    → first_free a from left ≡ first_free b from left
unfolding first_free
first_free_ext a b from zero h = refl
first_free_ext a b from (suc left) h =
    let here : a from ≡ b from = h from (omega arith) (omega arith) in
    rw (here, first_free_ext a b (suc from) left (λ i p q. h i (omega arith) (omega arith))) refl

-- A search of two ranges, one behind the other.
first_free_append :
    (a : Word64) (from m n : ℕ)
    → 0 < from
    → first_free a from (m + n)
      ≡ (if not (first_free a from m == 0) then first_free a from m else first_free a (from + m) n)
unfolding first_free
first_free_append a from zero n h =
    let e : from ≡ from + 0 = omega arith in
    let z : 0 + n ≡ n = omega arith in rw z (ap (λ (k : ℕ). first_free a k n) e)
first_free_append a from (suc m) n h = elim (Bool-cases (a from)) [
  | inl found ↦
      let e : (from == 0) ≡ false = ground arith in
      let sum : suc m + n ≡ suc (m + n) = omega arith in rw (sum, first_free, found, e) refl
  | inr taken ↦
      let e : suc from + m ≡ from + suc m = omega arith in
      let sum : suc m + n ≡ suc (m + n) = omega arith in
      rw (sum, first_free, taken, sym e) (first_free_append a (suc from) m n (omega arith))
]

is_free_low : (t : GameServerTable) (i : ℕ) → i < 64 → is_free t i ≡ t.free_low i
unfolding is_free
is_free_low t i h = let e : ltb i 64 ≡ true = ground arith in rw e refl

is_free_high : (t : GameServerTable) (i : ℕ) → 64 ≤ i → is_free t i ≡ t.free_high (i - 64)
unfolding is_free
is_free_high t i h = let e : ltb i 64 ≡ false = ground arith in rw e refl

module _ (t : GameServerTable) (c : Consistent t) where
  low_search :
      (left : ℕ) → left ≤ 63 → first_free t.free_low 1 left ≡ first_free (unregistered t) 1 left
  low_search left h =
      first_free_ext t.free_low (unregistered t) 1 left
        (λ i p q. sym (is_free_low t i (omega arith)) ∙ c.agree i p (omega arith))

  high_search :
      (left : ℕ)
      → left ≤ 64
      → first_free (λ id. t.free_high (id - 64)) 64 left ≡ first_free (unregistered t) 64 left
  high_search left h =
      first_free_ext (λ id. t.free_high (id - 64)) (unregistered t) 64 left
        (λ i p q. sym (is_free_high t i p) ∙ c.agree i (omega arith) (omega arith))

-- Where the bitmap agrees with the map, its search gives what a search of the map gives from 1 to
-- the limit or 127, for a limit of at least 1.
pub first_available_id_lem :
    (t : GameServerTable) (max_id : ℕ)
    → Consistent t
    → 1 ≤ max_id
    → first_available_id max_id t ≡ first_free (unregistered t) 1 (min max_id 127)
unfolding first_available_id
first_available_id_lem t max_id c h =
    let positive : leb 1 max_id ≡ true = ground arith in
    elim (Bool-cases (leb max_id 63)) [
      | inl small ↦
          let bound : max_id ≤ 63 = ground arith in
          let e : min max_id 127 ≡ max_id = omega arith in
          rw (e, positive, small) (low_search t c max_id bound)
      | inr large ↦
          let bound : 63 < max_id = ground arith in
          let e : min max_id 127 ≡ 63 + (min max_id 127 - 63) = omega arith in
          rw
            (
              positive,
              large,
              low_search t c 63 (omega arith),
              high_search t c (min max_id 127 - 63) (omega arith),
            )
            (sym (
              ap (λ (n : ℕ). first_free (unregistered t) 1 n) e
              ∙ first_free_append (unregistered t) 1 63 (min max_id 127 - 63) (omega arith)))
    ]

first_free_least :
    (a : Word64) (from left j : ℕ)
    → 0 < from
    → from ≤ j
    → j < from + left
    → a j ≡ true
    → (from ≤ first_free a from left)
      × ((first_free a from left ≤ j) × (a (first_free a from left) ≡ true))
unfolding first_free
first_free_least a from zero j h p q e = absurd (omega arith)
first_free_least a from (suc left) j h p q e = elim (Bool-cases (a from)) [
  | inl found ↦ rw found (omega arith, (p, found))
  | inr taken ↦
      let later : suc from ≤ j = elim (Bool-cases (from == j)) [
        | inl same ↦
            let e1 : from ≡ j = ground arith in
            absurd (true≢false (sym e ∙ (ap a (sym e1) ∙ taken)))
        | inr other ↦ ground arith
      ] in
      let (low, (high, bit)) =
        first_free_least a (suc from) left j (omega arith) later (omega arith) e in
      rw taken (omega arith, (high, bit))
]

-- A search that gives an id gives one whose bit is set.
pub first_free-true :
    (a : Word64) (from left : ℕ)
    → (first_free a from left == 0) ≡ false
    → a (first_free a from left) ≡ true
unfolding first_free
first_free-true a from zero h = cc
first_free-true a from (suc left) h = elim (Bool-cases (a from)) [
  | inl found ↦ rw found found
  | inr taken ↦ rw taken (first_free-true a (suc from) left (rw taken at h))
]

-- If some id up to the limit and 127 is not registered then a game server is given the least such
-- id, and no game server had it.
pub first_available_id-unregistered :
    (t : GameServerTable) (max_id j : ℕ)
    → Consistent t
    → 1 ≤ j
    → j ≤ max_id
    → j ≤ 127
    → get_by_id j t ≡ none
    → let id = first_available_id max_id t in (1 ≤ id) × ((id ≤ j) × (get_by_id id t ≡ none))
first_available_id-unregistered t max_id j c p q r e =
    let bit : unregistered t j ≡ true = unfold unregistered in rw e refl in
    rw (first_available_id_lem t max_id c (omega arith)) (
      let (low, (high, free)) =
        first_free_least (unregistered t) 1 (min max_id 127) j (omega arith) p (omega arith) bit in
      (low, (high, is_none-none _ (unfold unregistered in free))))
