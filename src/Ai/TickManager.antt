-- ===== src/Ai/TickManager.antt =====
-- internal/ai/manager.go, for controllers of any type with the methods of the interface of
-- internal/ai/controller.go that the manager calls. The cached count is an int32.
use la2go.Prelude.{ℕ, ◌^◌, List, [], Option, none, some}
use la2go.Prelude.Int.{ℤ, pos, int32, word, ◌+ℤ◌, ◌-ℤ◌}
use la2go.Prelude.Assoc.{lookup, insert, erase, map_values}

pub record Controller (C : Type 0) : Type 0 where
  pub start : C → C
  pub stop : C → C
  pub tick : C → C

pub record TickManager (C : Type 0) : Type 0 where
  pub controllers : List (ℕ × C)
  pub controller_count : ℤ

unfoldable pub new_tick_manager : {C : Type 0} → TickManager C
new_tick_manager = record { controllers = []; controller_count = pos 0 }

abbrev pub wrap_int32 : ℤ → ℤ
wrap_int32 z = int32 (word (2 ^ 32) z)

module _ {C : Type 0} (methods : Controller C) where
  unfoldable pub register_controller : ℕ → C → TickManager C → TickManager C
  unfolding ◌+ℤ◌
  register_controller id c m = record {
    controllers = insert id (methods.start c) m.controllers;
    controller_count = wrap_int32 (m.controller_count +ℤ pos 1);
  }

  -- The manager, and the stopped controller if there was one.
  unfoldable pub unregister_controller : ℕ → TickManager C → TickManager C × Option C
  unfolding ◌-ℤ◌
  unregister_controller id m = elim (lookup id m.controllers) [
    | none ↦ (m, none)
    | some c ↦ (
      record {
        controllers = erase id m.controllers;
        controller_count = wrap_int32 (m.controller_count -ℤ pos 1);
      },
      some (methods.stop c),
    )
  ]

  unfoldable pub tick_all : TickManager C → TickManager C
  tick_all m = record m { controllers = map_values methods.tick m.controllers }

unfoldable pub get_controller : {C : Type 0} → ℕ → TickManager C → Option C
get_controller id m = lookup id m.controllers
