-- ===== src/Registry.antt =====
-- internal/gameserver/info.go and table.go: the game servers that have registered, under their
-- ids, with the bitmap of free ids.
pub mod Info
pub mod Table
pub mod Loading
pub mod Tests
