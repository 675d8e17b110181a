-- ===== src/Packet.antt =====
-- internal/gameserver/packet/reader.go and writer.go. internal/gslistener/packet/reader.go has the
-- same methods, but for `ReadLong`, `ReadDouble` and `ReadBytesCopy`.
-- A Go string is the list of its code points; encoding/binary and unicode/utf16 are written out.
pub mod Utf16
pub mod Reader
pub mod Writer
pub mod RoundTrip
pub mod Tests
