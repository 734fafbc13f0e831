-- ===== src/Tests/Latch.antt =====
-- A latch of count one: an awaiter that suspends and is resumed by `count_down`, and one that is resumed
-- twice, since the call comes between its exchange and its second test.
use native.Mathlib.Decide.{ℕ_discrete}
use uvio.Prelude.{◌≡◌, refl, []}
use uvio.Sync.Latch.{System, init, ask, put, settle, lower, load, count_down, wake, leave}
use uvio.Sync.Latch.Turns.{Turns}

abbrev sleeping : System
sleeping = settle 0 (put 0 (ask 0 (init 1)))

-- The call comes when the awaiter is on the list and has not tested the counter again.
abbrev raced : System
raced = settle 0 (wake 0 0 [] (load 0 (lower 0 1 (put 0 (ask 0 (init 1))))))

raced_twice : raced.resumes 0 ≡ 2
unfolding init ask put settle lower load wake ℕ_discrete
raced_twice = refl

-- The same on one thread, where the call cannot come in between.
abbrev turned : System
turned = leave 0 (wake 0 0 [] (count_down 0 1 sleeping))
