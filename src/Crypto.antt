-- ===== src/Crypto.antt =====
-- internal/crypto: the checksum and the XOR pass over a packet, the Blowfish wrapper, the packet
-- encryption of the login protocol and the scrambling of the RSA modulus.
pub mod Checksum
pub mod XorPass
pub mod Blowfish
pub mod Encryption
pub mod Windows
pub mod Rsa
pub mod Tests
