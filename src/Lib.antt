-- ===== src/Lib.antt =====
-- A verification library for la2go, a server for Lineage 2 in Go: a login server, which authenticates
-- clients and game servers, and a game server.
--
-- Parts, from the paths of the repository:
--   Prelude       tests on numbers, Go's results (value, error, panic), lists, maps, integers, bits
--   Bytes         byte slices and encoding/binary
--   Crypto        internal/crypto: Blowfish over a range, checksum, XOR pass, packet encryption, RSA
--                 keys, decryption without padding and the scrambling of the modulus
--   Packet        internal/gameserver/packet and internal/gslistener/packet: reader and writer
--   Wire          internal/protocol and protocol.go of internal/gslistener: packets on a stream
--   Login         internal/login: sessions, client state, server packets, packet handler, the first
--                 packet of a connection (Handshake); and the client of internal/testutil/client.go,
--                 its requests (Requests) and what it makes of the replies (Replies)
--   Model         internal/model: characters, players, items, NPCs, distances
--   Registry      info.go and table.go of internal/gameserver: the table of game servers
--   Relay         internal/gslistener: the connections of game servers to the login server
--   Game          the rest of internal/gameserver: the connections of clients to a game server
--   World         internal/world and objects of internal/model: grid, objects, visibility, and the
--                 players that are registered for updates (Registered)
--   Ai            internal/ai: the controllers of NPCs and the manager that ticks them
--   Spawn         internal/spawn and spawn.go of internal/model: spawn points, their loading, the
--                 respawn tasks and the simple spawner
--
-- A client connects to the login server, which sends its first packet under a static key (Crypto,
-- Wire) and then takes packets through the handler (Login), whose replies are sealed under the key
-- of the connection. A successful login stores a session. Game servers keep a connection to the
-- login server (Relay), under an id of the table of game servers (Registry), and have players
-- validated by their sessions. A game server takes packets of clients (Game), with the same reader
-- and the same sessions, and keeps the objects of the game in the regions of a grid (World). NPCs are
-- such objects; the spawn manager (Spawn) places them and registers their controllers (Ai), and the
-- respawn tasks call it again when their time has come.
--
-- Where operations of the source are found: each file names the Go files it is about, and a
-- definition has the name of its function in lower case with underscores, as `HandlePacket` and
-- `handle_packet`. A method takes the object as an argument and gives it back changed.
--
-- Conventions. Numbers are natural numbers; an integer of Go is an element of the type of integers
-- with its conversions to words written out (Prelude.Int). A slice is the list of its bytes, and an
-- index out of range is a panic. A map is an association list or a function. Handlers take the state
-- that they share and return it changed; the locks of the source make each operation one step. In
-- Relay each packet is one step of the network, except where Races takes the reads and writes of two
-- handlers apart. A stream is the bytes that arrive before its end. Loops are structural, or
-- recursion on the number of rounds, which is computed from the bounds of the loop, so none runs out
-- of fuel.
--
-- Parameters: the Blowfish block cipher, the keys that crypto/rsa generates, the repository of
-- accounts, the hash of passwords, random numbers and the clock. The handler of Login takes RSA
-- decryption as a parameter, which Crypto.Rsa defines. That a number is prime stands in the laws of
-- RSA as Fermat's little theorem for it. Not modelled: sockets, tickers, goroutines and buffer pools,
-- which are the run-time's; SQL and configuration files, which are input and output; floating point;
-- and the client of game servers in internal/testutil.
pub mod Prelude
pub mod Bytes
pub mod Crypto
pub mod Packet
pub mod Wire
pub mod World
pub mod Ai
pub mod Spawn
pub mod Login
pub mod Model
pub mod Game
pub mod Registry
pub mod Relay
