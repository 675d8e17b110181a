-- ===== src/Ai.antt =====
-- internal/ai: the controllers of NPCs and the manager that ticks them. The intention that
-- internal/model keeps with an NPC stands here with its controller, the only one to set it.
pub mod BasicNpc
pub mod TickManager
pub mod Counting
pub mod Tests
