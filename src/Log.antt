-- ===== src/Log.antt =====
-- uvio/log.hpp: the console logger.
pub mod Level
pub mod Timestamp
pub mod Stamps
pub mod Console
pub mod Lines
