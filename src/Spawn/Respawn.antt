-- ===== src/Spawn/Respawn.antt =====
-- internal/spawn/respawn.go and CalculateRespawnDelay of internal/spawn/manager.go. Times are
-- nanoseconds; `now` stands for `time.Now()`, and `random` for the number that `rand.Int32N` draws.
pub mod Ticks
pub mod Tasks
pub mod Delays
use la2go.Prelude.{
  ℕ, ◌*◌, ◌^◌, List, [], ◌∷◌, Bool, true, false, not, if◌then◌else◌, Result, ok, err, panic, ◌>>=◌,
  length, Option,
}
use la2go.Prelude.Int.{ℤ, pos, negsuc, ◌+ℤ◌, ◌-ℤ◌, times_ℤ, ltb_ℤ, eq_ℤ, word}
use la2go.Prelude.Assoc.{lookup, insert, erase}
use la2go.Ai.TickManager.{wrap_int32}
use la2go.Spawn.Manager.{Manager, do_spawn}

pub record RespawnTask : Type 0 where
  pub spawn : ℕ
  pub respawn_time : ℤ

-- The tasks by the bit patterns of the ids of their spawns.
abbrev pub Tasks : Type 0
Tasks = List (ℕ × RespawnTask)

unfoldable pub schedule_respawn : ℤ → ℕ → ℤ → ℤ → Tasks → Tasks
unfolding ◌+ℤ◌
schedule_respawn id p delay now tasks =
    insert (word (2 ^ 64) id) (record { spawn = p; respawn_time = now +ℤ times_ℤ delay 1000000000 })
      tasks

unfoldable pub cancel_respawn : ℤ → Tasks → Tasks
cancel_respawn id tasks = erase (word (2 ^ 64) id) tasks

unfoldable pub is_due : ℤ → RespawnTask → Bool
is_due now task = not (ltb_ℤ now task.respawn_time)

-- The tasks that are due, and those that stay.
unfoldable pub process_tasks : ℤ → Tasks → List RespawnTask × Tasks
process_tasks now [] = ([], [])
process_tasks now ((id, task) ∷ tasks) =
    let (due, rest) = process_tasks now tasks in
    if is_due now task then (task ∷ due, rest) else (due, (id, task) ∷ rest)

-- Errors are only logged; a panic ends the program.
unfoldable pub execute_tasks : (ℤ → Bool) → List RespawnTask → Manager → Result Manager
execute_tasks has_template [] m = ok m
execute_tasks has_template (task ∷ tasks) m =
    let spawn = m.spawns task.spawn in
    elim (ltb_ℤ spawn.current_count spawn.maximum_count) [
      | false ↦ execute_tasks has_template tasks m
      | true ↦
          (let (result, m') = do_spawn has_template task.spawn m in
            elim result [
              | ok a ↦ execute_tasks has_template tasks m'
              | err e ↦ execute_tasks has_template tasks m'
              | panic ↦ panic
            ])
    ]

-- One tick of the manager, with the goroutine it starts run to its end.
unfoldable pub respawn_tick : (ℤ → Bool) → ℤ → Tasks × Manager → Result (Tasks × Manager)
respawn_tick has_template now (tasks, m) =
    let (due, rest) = process_tasks now tasks in
    execute_tasks has_template due m >>= (λ m'. ok (rest, m'))

-- `rand.Int32N` panics unless its bound is positive.
unfoldable pub calculate_respawn_delay : (ℤ → ℤ) → ℤ → ℤ → Result ℤ
unfolding ◌+ℤ◌ ◌-ℤ◌
calculate_respawn_delay random least most =
    let bound = wrap_int32 (wrap_int32 (most -ℤ least) +ℤ pos 1) in
    if eq_ℤ least most
    then ok least
    else if ltb_ℤ (pos 0) bound
    then ok (wrap_int32 (least +ℤ random bound))
    else panic
