-- ===== src/Ai/Tests.antt =====
-- Runs of the controllers of NPCs and their manager.
use la2go.Prelude.{refl}
use la2go.Prelude.Assoc.{lookup}
use la2go.Ai.BasicNpc.{BasicNpcAi, new_basic_npc_ai, start, stop, tick}
use la2go.Ai.TickManager.{
  Controller, TickManager, new_tick_manager, register_controller, unregister_controller, tick_all,
}
use la2go.Ai.Counting.{IsCounted, Managed, fresh, registers, unregisters, ticks, Managed-IsCounted}

abbrev basic : Controller BasicNpcAi
basic = record { start = start; stop = stop; tick = tick }

abbrev one_npc : TickManager BasicNpcAi
one_npc = register_controller basic 100001 new_basic_npc_ai new_tick_manager

one_npc-Managed : Managed basic one_npc
one_npc-Managed = registers 100001 new_basic_npc_ai fresh (unfold new_tick_manager lookup in refl)

Managed-IsCounted_example :
    IsCounted (unregister_controller basic 100001 (tick_all basic one_npc)).0
Managed-IsCounted_example = Managed-IsCounted basic (unregisters 100001 (ticks one_npc-Managed))
