-- ===== src/Relay.antt =====
-- internal/gslistener: the connections of game servers to the login server. A game server sends its
-- Blowfish key, registers, and then asks for the sessions of players and reports its own state.
pub mod ClientPackets
pub mod ServerPackets
pub mod Connection
pub mod Handler
pub mod Tests
