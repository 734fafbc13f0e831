-- ===== src/Tests/Task.antt =====
-- A task that awaits another one, which waits for an event, and the handles of two tasks.
use native.Mathlib.Decide.{ℕ_discrete}
use uvio.Prelude.{ℕ, ◌≡◌, refl, Option, none, some, List, [], ◌∷◌, ◌≢◌}
use uvio.Common.Result.{Run, done, fault, hang}
use uvio.Task.{
  Body, co_return, co_await_task, co_await_event, emits, Memory, Control, ended, new_task, block_on,
}
use uvio.Task.Refine.{Blocks, block_on-play}
use uvio.Task.Handle.{Handles, call, drop_task, start, later, calls}
use uvio.Task.Handle.Owned.{drop_task-once}

abbrev no_frames : Memory ℕ
no_frames = record { frames = λ j. none; next = 0; written = [] }

-- Writes 1, waits, writes what came, and returns it.
abbrev echo_once : Body ℕ
echo_once = emits 1 (co_await_event (λ v. emits v (co_return v)))

-- Awaits that task, and writes what it returned.
abbrev outer_task : Body ℕ
outer_task = co_await_task echo_once (λ v. emits v (co_return 9))

abbrev told : Run (Control × Memory ℕ) → Option (Control × List ℕ)
told (done (c, m)) = some (c, m.written)
told fault = none
told hang = none

outer_run : told (block_on 20 outer_task (5 ∷ []) no_frames) ≡ some (ended, 1 ∷ 5 ∷ 5 ∷ [])
unfolding block_on ℕ_discrete
outer_run = refl

block_on-play_example : Blocks outer_task (5 ∷ []) no_frames
block_on-play_example = block_on-play outer_task (5 ∷ []) no_frames (λ j h. refl)

abbrev two_calls : Handles × Memory ℕ
two_calls = call 1 echo_once (call 0 outer_task (λ i. none, no_frames))

drop_task-once_example :
    (h' : Handles) × (m' : Memory ℕ) × (drop_task 1 two_calls ≡ done (h', m'))
    × (m'.frames 1 ≡ none)
    × ((j : ℕ) → h' j ≢ some 1)
unfolding call new_task ℕ_discrete
drop_task-once_example =
    drop_task-once 1 1
      (later (later (start no_frames) (calls 0 outer_task refl)) (calls 1 echo_once refl)) refl
