-- ===== src/Noise.antt =====
pub mod Crypto
pub mod Primitives
pub mod Compare
pub mod Handshake
pub mod Framing
pub mod Transport
