-- ===== src/Game.antt =====
-- internal/gameserver, the side of the game clients: client.go, clientpackets, serverpackets,
-- handler.go, and the loop of server.go that serves one connection.
pub mod Client
pub mod Packets
pub mod Handler
pub mod Tests
