-- ===== src/Sync/Latch/Turns.antt =====
-- The turns of one thread, on which nothing comes between the two tests of an awaiter or between the
-- `fetch_sub` and the load of a call, and what is kept of a latch from turn to turn.
use mathlib.Core.List.{Memᴰ}
use uvio.Prelude.{ℕ, ◌^◌, ◌≤◌, ◌<◌, ◌≡◌, ◌≢◌, ◌⊎◌, true, false, List, [], ◌∷◌}
use uvio.Sync.Latch.{
  try_wait, outside, suspended, idle, walking, System, init, ask, put, settle, count_down, wake,
  leave,
}

-- A turn of the thread. Counts are lowered by what is left of them at most, as `std::latch` asks.
pub data Turn (s : System) : System → Type 0 where
  goes_past : (w : ℕ) → s.phase w ≡ outside → try_wait s.latch ≡ true → Turn s (ask w s)
  suspends :
      (w : ℕ) → s.phase w ≡ outside → try_wait s.latch ≡ false → Turn s (settle w (put w (ask w s)))
  counts_down :
      (i amount : ℕ)
      → s.call i ≡ idle
      → 0 < amount
      → amount ≤ s.latch.expected
      → Turn s (count_down i amount s)
  wakes : (i w : ℕ) (ws : List ℕ) → s.call i ≡ walking (w ∷ ws) → Turn s (wake i w ws s)
  leaves : (i : ℕ) → s.call i ≡ walking [] → Turn s (leave i s)

pub data Turns (count : ℕ) : System → Type 0 where
  start : Turns count (init count)
  later : {s t : System} → Turns count s → Turn s t → Turns count t

abbrev pub Distinct : List ℕ → Type 0
Distinct [] = Unit {0}
Distinct (w ∷ ws) = (¬ Memᴰ w ws) × Distinct ws

-- An awaiter while the counter is not zero: not there yet, or suspended and on the list.
pub data Early (s : System) (w : ℕ) : Type 0 where
  absent : s.phase w ≡ outside → ¬ Memᴰ w s.latch.head → Early s w
  asleep : s.phase w ≡ suspended → Early s w

pub record Counting (s : System) : Type 0 where
  pub more : s.latch.expected ≢ 0
  pub fits : s.latch.expected < 2 ^ 64
  pub quiet : (i : ℕ) → s.call i ≡ idle
  pub distinct : Distinct s.latch.head
  pub early : (w : ℕ) → Early s w
  pub never : (w : ℕ) → s.resumes w ≡ 0

-- Once the counter is zero: call `i` has `ws` still to resume, which were not resumed before.
pub record Notifying (s : System) : Type 0 where
  pub zero_now : s.latch.expected ≡ 0
  pub caller : ℕ
  pub to_wake : List ℕ
  pub others : (j : ℕ) → caller ≢ j → s.call j ≡ idle
  pub at : (s.call caller ≡ walking to_wake) ⊎ ((s.call caller ≡ idle) × (to_wake ≡ []))
  pub distinct : Distinct to_wake
  pub waiting : (w : ℕ) → Memᴰ w to_wake → s.phase w ≢ outside
  pub not_yet : (w : ℕ) → Memᴰ w to_wake → s.resumes w ≡ 0
  pub once : (w : ℕ) → s.resumes w ≤ 1

pub data AtMostOnce (s : System) : Type 0 where
  counting : Counting s → AtMostOnce s
  notifying : Notifying s → AtMostOnce s
