-- ===== src/Ai/BasicNpc.antt =====
-- internal/ai/basic_ai.go and internal/model/intention.go.
pub mod Toggling
use la2go.Prelude.{ℕ, suc, ◌+◌, ◌%◌, ◌^◌, Bool, true, false, ◌==◌, if◌then◌else◌}
use la2go.Prelude.Int.{ℤ, pos, negsuc, int32, word, ◌+ℤ◌}

pub data Intention : Type 0 where
  intention_idle intention_active intention_attack intention_cast intention_move_to : Intention

pub record BasicNpcAi : Type 0 where
  pub is_running : Bool
  pub tick_count : ℤ
  pub intention : Intention

-- A new NPC is idle.
unfoldable pub new_basic_npc_ai : BasicNpcAi
new_basic_npc_ai = record { is_running = false; tick_count = pos 0; intention = intention_idle }

unfoldable pub start : BasicNpcAi → BasicNpcAi
start ai = record ai { is_running = true; intention = intention_active }

unfoldable pub stop : BasicNpcAi → BasicNpcAi
stop ai = record ai { is_running = false; intention = intention_idle }

-- `ticks%5 == 0` of an int32.
unfoldable pub fifth : ℤ → Bool
fifth (pos n) = (n % 5) == 0
fifth (negsuc n) = (suc n % 5) == 0

unfoldable pub toggle : Intention → Intention
toggle intention_idle = intention_active
toggle intention_active = intention_idle
toggle intention_attack = intention_active
toggle intention_cast = intention_active
toggle intention_move_to = intention_active

-- The counter is an int32 and wraps around.
unfoldable pub tick : BasicNpcAi → BasicNpcAi
unfolding ◌+ℤ◌
tick ai =
    if ai.is_running
    then (let ticks = int32 (word (2 ^ 32) (ai.tick_count +ℤ pos 1)) in
        record ai {
          tick_count = ticks;
          intention = (if fifth ticks then toggle ai.intention else ai.intention);
        })
    else ai
