-- ===== src/Ai/BasicNpc/Toggling.antt =====
-- The ticks of a controller that was started and not stopped since.
use la2go.Prelude.{ℕ, zero, suc, ◌%◌, ◌/◌, ◌^◌, ◌<◌, ◌≡◌, refl, true, ◌==◌, if◌then◌else◌, arith}
use la2go.Prelude.Int.{pos, int32, word, ◌+ℤ◌}
use la2go.Ai.BasicNpc.{
  BasicNpcAi, Intention, intention_idle, intention_active, new_basic_npc_ai, start, tick, fifth,
  toggle,
}

-- `n` ticks, the last one outside.
abbrev pub ticked : ℕ → BasicNpcAi → BasicNpcAi
ticked zero ai = ai
ticked (suc n) ai = tick (ticked n ai)

-- Active for five ticks, idle for five, and so on.
abbrev pub phase : ℕ → Intention
phase n = if (n / 5 % 2) == 0 then intention_active else intention_idle

next_phase : (n : ℕ) → (if fifth (pos (suc n)) then toggle (phase n) else phase n) ≡ phase (suc n)
unfolding fifth toggle
next_phase n = ground arith

next_count : (n : ℕ) → suc n < 2 ^ 31 → int32 (word (2 ^ 32) (pos n +ℤ pos 1)) ≡ pos (suc n)
unfolding ◌+ℤ◌
next_count n h = ground arith

-- A new controller that was started has, after fewer than 2^31 ticks, counted them, and the NPC is
-- active for five ticks and idle for five in turn.
ticked-start :
    (n : ℕ)
    → n < 2 ^ 31
    → ticked n (start new_basic_npc_ai)
      ≡ record { is_running = true; tick_count = pos n; intention = phase n }
unfolding start new_basic_npc_ai tick
ticked-start zero h = refl
ticked-start (suc n) h = rw (ticked-start n (omega arith), next_count n h, next_phase n) refl
