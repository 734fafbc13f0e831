-- ===== src/Codec.antt =====
-- The parts of uvio/codec.
pub mod Bytes
pub mod FixedLength
pub mod Http
pub mod LengthDelimited
pub mod Mask
pub mod Websocket
