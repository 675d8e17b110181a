-- ===== src/World.antt =====
-- internal/world, with the objects and locations of internal/model: the grid of regions, the objects
-- in them, and what a player sees.
pub mod Grid
pub mod Objects
pub mod Placement
pub mod Reachable
pub mod Removal
pub mod Visibility
pub mod Registered
pub mod Tests
