-- ===== src/Timer.antt =====
-- uvio/time/sleep.hpp and uvio/work.hpp: the awaiters of a timer and of a call on another thread.
pub mod Await
use uvio.Prelude.{ℕ, Bool, true, false}
use uvio.Common.Result.{Result, ok}
use uvio.Common.Stoi.{ℤ, pos}
use uvio.Net.TcpStream.Awaiters.{at_most_zero}

-- `SleepAwaiter`; its callback has no argument.
pub record SleepAwaiter : Type 0 where
  pub handle : Bool
  pub ready : Bool

abbrev pub sleep_start : SleepAwaiter
sleep_start = record { handle = false; ready = false }

unfoldable pub sleep_callback : Unit {0} → SleepAwaiter → SleepAwaiter × Bool
sleep_callback u a = (record a { ready = true }, a.handle)

unfoldable pub sleep_suspend : SleepAwaiter → SleepAwaiter
sleep_suspend a = record a { handle = true }

unfoldable pub sleep_resume : SleepAwaiter → Result (Unit {0}) × SleepAwaiter
sleep_resume a = (ok tt, record { handle = false; ready = false })

-- `WorkAwaiter`; `func_` runs on the other thread before the callback.
pub record WorkAwaiter : Type 0 where
  pub handle : Bool
  pub status : ℤ

abbrev pub work_start : WorkAwaiter
work_start = record { handle = false; status = pos 1 }

unfoldable pub work_callback : ℤ → WorkAwaiter → WorkAwaiter × Bool
work_callback status a = (record a { status = status }, a.handle)

unfoldable pub work_ready : WorkAwaiter → Bool
work_ready a = at_most_zero a.status

unfoldable pub work_suspend : WorkAwaiter → WorkAwaiter
work_suspend a = record a { handle = true }

-- It returns nothing, which stands as a success here.
unfoldable pub work_resume : WorkAwaiter → Result (Unit {0}) × WorkAwaiter
work_resume a = (ok tt, record a { handle = false })
