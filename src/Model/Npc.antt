-- ===== src/Model/Npc.antt =====
-- npc.go, npc_template.go and monster.go of internal/model. A spawn is a pointer, as in Spawn, and a
-- missing template is `none`.
use la2go.Prelude.{
  ℕ, ◌≡◌, refl, List, Bool, false, Option, none, some, Result, ok, panic, ◌>>=◌, arith,
}
use la2go.Prelude.Int.{ℤ, pos, ltb_ℤ, ◌≤ℤ◌}
use la2go.World.Objects.{Location}
use la2go.Ai.BasicNpc.{Intention, intention_idle}
use la2go.Model.Character.{Character, new_character}
use la2go.Model.Bounds.{IsBounded}

pub record NpcTemplate : Type 0 where
  pub template_id : ℤ
  pub name : List ℕ
  pub title : List ℕ
  pub level : ℤ
  pub max_hp : ℤ
  pub max_mp : ℤ
  pub p_atk : ℤ
  pub p_def : ℤ
  pub m_atk : ℤ
  pub m_def : ℤ
  pub aggro_range : ℤ
  pub move_speed : ℤ
  pub atk_speed : ℤ
  pub respawn_min : ℤ
  pub respawn_max : ℤ

pub record Npc : Type 0 where
  pub character : Character
  pub template_id : ℤ
  pub template : NpcTemplate
  pub spawn : Option ℕ
  pub is_decayed : Bool
  pub intention : Intention

unfoldable pub new_npc : ℕ → ℤ → Option NpcTemplate → Result Npc
new_npc object_id template_id none = panic
new_npc object_id template_id (some template) =
    let nowhere : Location = record { x = pos 0; y = pos 0; z = pos 0; heading = 0 } in
    ok (record {
      character =
          new_character object_id template.name nowhere template.level template.max_hp
            template.max_mp (pos 0);
      template_id = template_id;
      template = template;
      spawn = none;
      is_decayed = false;
      intention = intention_idle;
    })

unfoldable pub set_spawn : ℕ → Npc → Npc
set_spawn p n = record n { spawn = some p }

unfoldable pub set_decayed : Bool → Npc → Npc
set_decayed decayed n = record n { is_decayed = decayed }

unfoldable pub set_intention : Intention → Npc → Npc
set_intention intention n = record n { intention = intention }

pub record Monster : Type 0 where
  pub npc : Npc
  pub is_aggressive : Bool
  pub aggro_range : ℤ

-- Without a template NewNpc panics first.
unfoldable pub new_monster : ℕ → ℤ → Option NpcTemplate → Result Monster
new_monster object_id template_id template = new_npc object_id template_id template >>= (λ npc.
    ok (record {
      npc = npc;
      is_aggressive = ltb_ℤ (pos 0) npc.template.aggro_range;
      aggro_range = npc.template.aggro_range;
    }))

unfoldable pub set_aggressive : Bool → Monster → Monster
set_aggressive aggressive m = record m { is_aggressive = aggressive }

-- A template with HP, MP and a level in their ranges makes an NPC in its bounds, at full HP and MP.
new_npc-IsBounded :
    (object_id : ℕ) (template_id : ℤ) (t : NpcTemplate)
    → pos 1 ≤ℤ t.max_hp
    → pos 0 ≤ℤ t.max_mp
    → pos 1 ≤ℤ t.level
    → t.level ≤ℤ pos 100
    → (n : Npc) × (new_npc object_id template_id (some t) ≡ ok n)
      × IsBounded n.character
      × (n.character.current_hp ≡ t.max_hp)
unfolding new_npc new_character
new_npc-IsBounded object_id template_id t hp mp low high = (
  _,
  refl,
  (
    (omega arith, omega arith),
    (omega arith, omega arith),
    (omega arith, omega arith),
    hp,
    low,
    high,
  ),
  refl,
)
