-- ===== src/Login.antt =====
-- internal/login: the session table that the game servers ask, the connection of one client, the
-- packets sent to it, and the handler of its packets. The repository of accounts, the RSA key and
-- the random numbers are parameters.
pub mod Session
pub mod ServerPackets
pub mod Client
pub mod Handshake
pub mod Replies
pub mod Requests
pub mod Handler
pub mod Tests
