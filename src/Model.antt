-- ===== src/Model.antt =====
-- internal/model: characters, players and items.
pub mod Character
pub mod Player
pub mod Item
pub mod Npc
pub mod Bounds
pub mod Experience
pub mod Counts
pub mod Distance
pub mod Tests
