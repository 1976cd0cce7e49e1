-- ===== src/Network.antt =====
-- The network layer of compiler/src.
pub mod Adler
pub mod Buffer
pub mod Message
pub mod Output
pub mod Protocol
mod Tests
pub mod Xtea
