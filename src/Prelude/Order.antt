-- ===== src/Prelude/Order.antt =====
-- `<` on the native numbers is well founded, and decides against `≤`.
use Prim.Native.Nat.{ℕ, zero, suc, ◌<◌, ◌≤◌}
use mathlib.Core.WellFounded.{Acc, WellFounded}
use mathlib.Core.Logic.{◌⊎◌}
use native.Mathlib.Omega.{arith}

Acc-below : (bound n : ℕ) → n < bound → Acc ◌<◌ n
Acc-below zero n h = elim h [ ]
Acc-below (suc bound) n h = Acc.intro n (λ m hm. Acc-below bound m (omega arith))

unfoldable pub lt_wf : WellFounded ◌<◌
unfolding Acc-below
lt_wf = record { apply = λ n. Acc-below (suc n) n (omega arith) }

pub lt_or_le : (a b : ℕ) → (a < b) ⊎ (b ≤ a)
lt_or_le a b = grind arith
