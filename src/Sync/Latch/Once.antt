-- ===== src/Sync/Latch/Once.antt =====
-- The turns of a call that resumes awaiters, and all turns in a row.
use mathlib.Core.List.{Memᴰ}
use uvio.Prelude.{List}
use uvio.Sync.Latch.Turns.{Turns}
