-- ===== src/Network.antt =====
-- The network layer: messages, their encoding and their encryption.
pub mod Message
pub mod Xtea
pub mod Protocol
mod Examples
