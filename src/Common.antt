-- ===== src/Common.antt =====
-- The parts of uvio/common.
pub mod Result
pub mod Coro
pub mod Base64
pub mod Stoi
