-- ===== src/Model/Character.antt =====
-- internal/model/character.go. The fields of the embedded world object stand in `object`; its name
-- is a string of bytes. The percentages, which are floats, are left out.
use la2go.Prelude.{ℕ, List, Bool, not, if◌then◌else◌}
use la2go.Prelude.Int.{ℤ, pos, ltb_ℤ}
use la2go.World.Objects.{WorldObject, Location}

pub record Character : Type 0 where
  pub object : WorldObject
  pub name : List ℕ
  pub level : ℤ
  pub current_hp : ℤ
  pub max_hp : ℤ
  pub current_mp : ℤ
  pub max_mp : ℤ
  pub current_cp : ℤ
  pub max_cp : ℤ

unfoldable pub new_character : ℕ → List ℕ → Location → ℤ → ℤ → ℤ → ℤ → Character
new_character object_id name loc level max_hp max_mp max_cp = record {
  object = (record { object_id = object_id; location = loc });
  name = name;
  level = level;
  current_hp = max_hp;
  max_hp = max_hp;
  current_mp = max_mp;
  max_mp = max_mp;
  current_cp = max_cp;
  max_cp = max_cp;
}

-- `if v < least { v = least }` and `if v > most { v = most }`
abbrev pub at_least : ℤ → ℤ → ℤ
at_least least v = if ltb_ℤ v least then least else v

abbrev pub at_most : ℤ → ℤ → ℤ
at_most most v = if ltb_ℤ most v then most else v

unfoldable pub set_current_hp : ℤ → Character → Character
set_current_hp hp c = record c { current_hp = at_most c.max_hp (at_least (pos 0) hp) }

unfoldable pub set_max_hp : ℤ → Character → Character
set_max_hp max_hp c =
    let m = at_least (pos 1) max_hp in record c { max_hp = m; current_hp = at_most m c.current_hp }

unfoldable pub set_current_mp : ℤ → Character → Character
set_current_mp mp c = record c { current_mp = at_most c.max_mp (at_least (pos 0) mp) }

unfoldable pub set_max_mp : ℤ → Character → Character
set_max_mp max_mp c =
    let m = at_least (pos 0) max_mp in record c { max_mp = m; current_mp = at_most m c.current_mp }

unfoldable pub set_current_cp : ℤ → Character → Character
set_current_cp cp c = record c { current_cp = at_most c.max_cp (at_least (pos 0) cp) }

unfoldable pub set_max_cp : ℤ → Character → Character
set_max_cp max_cp c =
    let m = at_least (pos 0) max_cp in record c { max_cp = m; current_cp = at_most m c.current_cp }

unfoldable pub is_dead : Character → Bool
is_dead c = not (ltb_ℤ (pos 0) c.current_hp)

-- `SetLevel` of the character itself.
unfoldable pub set_character_level : ℤ → Character → Character
set_character_level level c = record c { level = at_most (pos 100) (at_least (pos 1) level) }
