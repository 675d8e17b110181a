-- ===== src/Model/Player.antt =====
-- internal/model/player.go. The times of creation and of the last login, which are stored only, and
-- the visibility cache (see World) are left out.
use la2go.Prelude.{
  ℕ, ◌^◌, List, Bool, not, ◌||◌, Result, ok, guard, ◌>>◌, length, ltb, invalid_name, invalid_level,
}
use la2go.Prelude.Int.{ℤ, pos, ◌+ℤ◌, ltb_ℤ, times_ℤ, int64, word}
use la2go.Ai.TickManager.{wrap_int32}
use la2go.Model.Character.{Character, new_character, at_least}

pub record Player : Type 0 where
  pub character : Character
  pub character_id : ℤ
  pub account_id : ℤ
  pub level : ℤ
  pub race_id : ℤ
  pub class_id : ℤ
  pub experience : ℤ

abbrev pub wrap_int64 : ℤ → ℤ
wrap_int64 z = int64 (word (2 ^ 64) z)

-- The test of a level in NewPlayer and SetLevel.
abbrev pub allowed_level : ℤ → Bool
allowed_level level = not (ltb_ℤ level (pos 1) || ltb_ℤ (pos 80) level)

-- `base + level*step` of int32 numbers.
abbrev pub scaled : ℕ → ℕ → ℤ → ℤ
scaled base step level = wrap_int32 (pos base +ℤ wrap_int32 (times_ℤ level step))

unfoldable pub new_player : ℤ → ℤ → List ℕ → ℤ → ℤ → ℤ → Result Player
unfolding ◌+ℤ◌
new_player character_id account_id name level race_id class_id =
    guard (not (ltb (length name) 2)) invalid_name
    >> (guard (allowed_level level) invalid_level
        >> ok (record {
          character =
              new_character 0 name (record { x = pos 0; y = pos 0; z = pos 0; heading = 0 }) level
                (scaled 1000 50 level) (scaled 500 25 level) (scaled 800 40 level);
          character_id = character_id;
          account_id = account_id;
          level = level;
          race_id = race_id;
          class_id = class_id;
          experience = pos 0;
        }))

unfoldable pub set_level : ℤ → Player → Result Player
set_level level p = guard (allowed_level level) invalid_level >> ok (record p { level = level })

unfoldable pub add_experience : ℤ → Player → Player
unfolding ◌+ℤ◌
add_experience exp p = record p { experience = at_least (pos 0) (wrap_int64 (p.experience +ℤ exp)) }

unfoldable pub set_experience : ℤ → Player → Player
set_experience exp p = record p { experience = at_least (pos 0) exp }

unfoldable pub set_character_id : ℤ → Player → Player
set_character_id id p = record p { character_id = id }

unfoldable pub set_race_id : ℤ → Player → Player
set_race_id id p = record p { race_id = id }

unfoldable pub set_class_id : ℤ → Player → Player
set_class_id id p = record p { class_id = id }
