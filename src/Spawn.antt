-- ===== src/Spawn.antt =====
-- internal/spawn and internal/model/spawn.go: the spawn points of NPCs.
pub mod Manager
pub mod Loading
pub mod Respawn
pub mod Filling
pub mod Results
pub mod Progress
pub mod SimpleSpawner
pub mod Hardcoded
pub mod Tests
