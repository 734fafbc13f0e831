-- ===== src/Sync.antt =====
-- uvio/sync.
pub mod Latch
