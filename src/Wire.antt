-- ===== src/Wire.antt =====
-- internal/protocol and internal/gslistener/protocol.go: packets on a connection, each with a header
-- of two bytes that holds its length.
pub mod Stream
pub mod Frame
pub mod Protocol
pub mod GsProtocol
pub mod RoundTrip
pub mod GsRoundTrip
pub mod Plaintext
pub mod Tests
