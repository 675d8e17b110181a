-- ===== src/Model/Bounds.antt =====
-- The bounds of HP, MP, CP, levels and experience, for a player that any calls have changed.
use la2go.Prelude.{
  ℕ, ◌+◌, ◌-◌, ◌*◌, ◌^◌, ◌≤◌, ◌≡◌, ltb, List, true, not, ok, guard-eq-ok, ok-injective, length,
  invalid_level, invalid_name, arith,
}
use la2go.World.Objects.{Location}
use la2go.Prelude.Int.{ℤ, pos, negsuc, ◌+ℤ◌, ◌≤ℤ◌, IsInt, times_ℤ}
use la2go.Ai.TickManager.{wrap_int32}
use la2go.Model.Character.{
  Character, at_least, at_most, new_character, set_current_hp, set_max_hp, set_current_mp,
  set_max_mp, set_current_cp, set_max_cp, set_character_level,
}
use la2go.Model.Player.{
  Player, allowed_level, scaled, new_player, set_level, add_experience, set_experience, set_race_id,
  set_class_id, set_character_id, wrap_int64,
}

-- A value from 0 to its maximum.
abbrev pub IsWithin : ℤ → ℤ → Type 0
IsWithin current most = (pos 0 ≤ℤ current) × (current ≤ℤ most)

abbrev pub IsBounded : Character → Type 0
IsBounded c =
    IsWithin c.current_hp c.max_hp
    × IsWithin c.current_mp c.max_mp
    × IsWithin c.current_cp c.max_cp
    × (pos 1 ≤ℤ c.max_hp)
    × (pos 1 ≤ℤ c.level)
    × (c.level ≤ℤ pos 100)

-- A call of a setter of a character.
pub data CharacterStep : Character → Character → Type 0 where
  sets_current_hp : (v : ℤ) {c : Character} → CharacterStep c (set_current_hp v c)
  sets_max_hp : (v : ℤ) {c : Character} → CharacterStep c (set_max_hp v c)
  sets_current_mp : (v : ℤ) {c : Character} → CharacterStep c (set_current_mp v c)
  sets_max_mp : (v : ℤ) {c : Character} → CharacterStep c (set_max_mp v c)
  sets_current_cp : (v : ℤ) {c : Character} → CharacterStep c (set_current_cp v c)
  sets_max_cp : (v : ℤ) {c : Character} → CharacterStep c (set_max_cp v c)
  sets_level : (v : ℤ) {c : Character} → CharacterStep c (set_character_level v c)

set_current-IsWithin :
    (most v : ℤ) → pos 0 ≤ℤ most → IsWithin (at_most most (at_least (pos 0) v)) most
set_current-IsWithin most v h = ground arith

set_max-IsWithin :
    (current least v : ℤ)
    → pos 0 ≤ℤ current
    → pos 0 ≤ℤ least
    → IsWithin (at_most (at_least least v) current) (at_least least v)
set_max-IsWithin current least v h g = ground arith

at_least_lem : (least v : ℤ) → least ≤ℤ at_least least v
at_least_lem least v = ground arith

within_max : (current most : ℤ) → IsWithin current most → pos 0 ≤ℤ most
within_max current most h = ground arith

step-IsBounded : {c c' : Character} → CharacterStep c c' → IsBounded c → IsBounded c'
unfolding set_current_hp set_max_hp set_current_mp set_max_mp set_current_cp set_max_cp
    set_character_level
step-IsBounded (sets_current_hp v {c}) (hp, mp, cp, alive, low, high) =
    (set_current-IsWithin c.max_hp v (within_max _ _ hp), mp, cp, alive, low, high)
step-IsBounded (sets_max_hp v {c}) (hp, mp, cp, alive, low, high) = (
  set_max-IsWithin c.current_hp (pos 1) v hp.0 (omega arith),
  mp,
  cp,
  at_least_lem (pos 1) v,
  low,
  high,
)
step-IsBounded (sets_current_mp v {c}) (hp, mp, cp, alive, low, high) =
    (hp, set_current-IsWithin c.max_mp v (within_max _ _ mp), cp, alive, low, high)
step-IsBounded (sets_max_mp v {c}) (hp, mp, cp, alive, low, high) =
    (hp, set_max-IsWithin c.current_mp (pos 0) v mp.0 (omega arith), cp, alive, low, high)
step-IsBounded (sets_current_cp v {c}) (hp, mp, cp, alive, low, high) =
    (hp, mp, set_current-IsWithin c.max_cp v (within_max _ _ cp), alive, low, high)
step-IsBounded (sets_max_cp v {c}) (hp, mp, cp, alive, low, high) =
    (hp, mp, set_max-IsWithin c.current_cp (pos 0) v cp.0 (omega arith), alive, low, high)
step-IsBounded (sets_level v {c}) (hp, mp, cp, alive, low, high) =
    (hp, mp, cp, alive, ground arith, ground arith)

-- A call of a setter of a player, or of the character in it; an int64 is what it takes as experience.
pub data PlayerStep (p : Player) : Player → Type 0 where
  steps : (c : Character) → CharacterStep p.character c → PlayerStep p (record p { character = c })
  levels : (v : ℤ) (p' : Player) → set_level v p ≡ ok p' → PlayerStep p p'
  adds_experience : (v : ℤ) → PlayerStep p (add_experience v p)
  sets_experience : (v : ℤ) → IsInt (2 ^ 63) v → PlayerStep p (set_experience v p)
  sets_character_id : (v : ℤ) → PlayerStep p (set_character_id v p)
  sets_race_id : (v : ℤ) → PlayerStep p (set_race_id v p)
  sets_class_id : (v : ℤ) → PlayerStep p (set_class_id v p)

-- A player that NewPlayer has made, after any calls.
pub data ReachablePlayer : Player → Type 0 where
  made :
      (character_id account_id : ℤ) (name : List ℕ) (level race_id class_id : ℤ) {p : Player}
      → new_player character_id account_id name level race_id class_id ≡ ok p
      → ReachablePlayer p
  changed : {p p' : Player} → ReachablePlayer p → PlayerStep p p' → ReachablePlayer p'

abbrev pub IsBoundedPlayer : Player → Type 0
IsBoundedPlayer p =
    IsBounded p.character
    × (pos 1 ≤ℤ p.level)
    × (p.level ≤ℤ pos 80)
    × (pos 0 ≤ℤ p.experience)
    × (p.experience ≤ℤ pos (2 ^ 63 - 1))

allowed_level_lem : (level : ℤ) → allowed_level level ≡ true → (pos 1 ≤ℤ level) × (level ≤ℤ pos 80)
allowed_level_lem level h = ground arith

wrapped_top : (z : ℤ) → at_least (pos 0) (wrap_int64 z) ≤ℤ pos (2 ^ 63 - 1)
wrapped_top z = ground arith

PlayerStep-IsBoundedPlayer :
    {p p' : Player} → PlayerStep p p' → IsBoundedPlayer p → IsBoundedPlayer p'
unfolding set_level add_experience set_experience set_character_id set_race_id set_class_id
PlayerStep-IsBoundedPlayer (steps c step) (bounded, low, high, least, most) =
    (step-IsBounded step bounded, low, high, least, most)
PlayerStep-IsBoundedPlayer {p} (levels v p' e) (bounded, low, high, poor, rich) =
    let (allowed, same) =
      guard-eq-ok (allowed_level v) invalid_level (ok (record p { level = v })) e in
    let value : record p { level = v } ≡ p' = cc in
    let (least, most) = allowed_level_lem v allowed in
    rw (← value) (bounded, least, most, poor, rich)
PlayerStep-IsBoundedPlayer {p} (adds_experience v) (bounded, low, high, poor, rich) = (
  bounded,
  low,
  high,
  at_least_lem (pos 0) (wrap_int64 (p.experience +ℤ v)),
  wrapped_top (p.experience +ℤ v),
)
PlayerStep-IsBoundedPlayer {p} (sets_experience v int) (bounded, low, high, poor, rich) =
    (bounded, low, high, ground arith, ground arith)
PlayerStep-IsBoundedPlayer (sets_character_id v) k = k
PlayerStep-IsBoundedPlayer (sets_race_id v) k = k
PlayerStep-IsBoundedPlayer (sets_class_id v) k = k

scaled-pos :
    (base step n : ℕ)
    → base ≤ 1000
    → n * step ≤ 4000
    → scaled base step (pos n) ≡ pos (base + n * step)
unfolding ◌+ℤ◌
scaled-pos base step n h g =
    let inner : wrap_int32 (times_ℤ (pos n) step) ≡ pos (n * step) = ground arith in
    let outer : wrap_int32 (pos base +ℤ pos (n * step)) ≡ pos (base + n * step) = ground arith in
    rw inner outer

IsWithin-same : (n : ℕ) → IsWithin (pos n) (pos n)
IsWithin-same n = (omega arith, omega arith)

new_character-IsBounded :
    (name : List ℕ) (loc : Location) (n : ℕ)
    → 1 ≤ n
    → n ≤ 80
    → IsBounded (
        new_character 0 name loc
          (pos n)
          (scaled 1000 50 (pos n))
          (scaled 500 25 (pos n))
          (scaled 800 40 (pos n)))
unfolding new_character
new_character-IsBounded name loc n h g =
    rw
      (
        scaled-pos 1000 50 n (omega arith) (omega arith),
        scaled-pos 500 25 n (omega arith) (omega arith),
        scaled-pos 800 40 n (omega arith) (omega arith),
      )
      (IsWithin-same _, IsWithin-same _, IsWithin-same _, omega arith, omega arith, omega arith)

new_player-IsBoundedPlayer :
    (character_id account_id : ℤ) (name : List ℕ) (level race_id class_id : ℤ) {p : Player}
    → new_player character_id account_id name level race_id class_id ≡ ok p
    → IsBoundedPlayer p
unfolding new_player
new_player-IsBoundedPlayer character_id account_id name (negsuc n) race_id class_id {p} e =
    let (long, rest) = guard-eq-ok (not (ltb (length name) 2)) invalid_name _ e in
    let (allowed, same) = guard-eq-ok (allowed_level (negsuc n)) invalid_level _ rest in
    absurd (ground arith)
new_player-IsBoundedPlayer character_id account_id name (pos n) race_id class_id {p} e =
    let (long, rest) = guard-eq-ok (not (ltb (length name) 2)) invalid_name _ e in
    let (allowed, same) = guard-eq-ok (allowed_level (pos n)) invalid_level _ rest in
    let (least, most) = allowed_level_lem (pos n) allowed in
    let value = ok-injective _ p same in
    rw (← value) (
      new_character-IsBounded name _ n (omega arith) (omega arith),
      omega arith,
      omega arith,
      omega arith,
      omega arith,
    )

-- A player whom NewPlayer accepts keeps, whatever calls of its setters and those of its character
-- follow, HP from 0 to a maximum of at least 1, MP and CP from 0 to their maxima, a level from 1 to
-- 80, a character level from 1 to 100, and an experience from 0 to the largest int64.
pub ReachablePlayer-IsBoundedPlayer : {p : Player} → ReachablePlayer p → IsBoundedPlayer p
ReachablePlayer-IsBoundedPlayer (made character_id account_id name level race_id class_id e) =
    new_player-IsBoundedPlayer character_id account_id name level race_id class_id e
ReachablePlayer-IsBoundedPlayer (changed before step) =
    PlayerStep-IsBoundedPlayer step (ReachablePlayer-IsBoundedPlayer before)
