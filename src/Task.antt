-- ===== src/Task.antt =====
-- uvio/coroutine/task.hpp and uvio/runtime.hpp: the frames of coroutines, how control passes between
-- them, and the event loop that resumes the one that waits for a libuv callback. What a coroutine
-- does between its points of suspension is its body: it may write, await another task, await an
-- event, and return. A task that is awaited is a temporary, whose destructor runs when the awaiting
-- coroutine goes on. A Task<void> returns a value that nobody looks at; exceptions, which terminate the
-- program, are left out.
pub mod Meaning
pub mod Chain
pub mod Steps
pub mod Drive
pub mod Rounds
pub mod Refine
pub mod Handle
use uvio.Prelude.{
  ℕ, zero, suc, Bool, true, false, Option, none, some, List, [], ◌∷◌, ◌++◌, if◌then◌else◌,
}
use uvio.Prelude.Family.{update}
use uvio.Common.Result.{Run, done, fault, hang, ◌>>=◌}

pub data Body (V : Type 0) : Type 0 where
  co_return : V → Body V
  co_await_task : Body V → (V → Body V) → Body V
  co_await_event : (V → Body V) → Body V
  emits : V → Body V → Body V

-- Where a frame stands: about to run a body, awaiting the task at an address, awaiting an event, or
-- at its final suspend point.
pub data Point (V : Type 0) : Type 0 where
  at : Body V → Point V
  awaits : ℕ → (V → Body V) → Point V
  sleeps : (V → Body V) → Point V
  final : Point V

-- A frame with its `TaskPromise`: `caller_` and `value_`.
pub record Frame (V : Type 0) : Type 0 where
  pub point : Point V
  pub caller : Option ℕ
  pub value : Option V

-- The frames that are alive, the address that the next one takes, and what was written.
pub record Memory (V : Type 0) : Type 0 where
  pub frames : ℕ → Option (Frame V)
  pub next : ℕ
  pub written : List V

-- Who goes on: the frame that is resumed, nobody until libuv calls back for the frame that sleeps, or
-- nobody for ever.
pub data Control : Type 0 where
  resumes sleeping : ℕ → Control
  ended : Control

module _ {V : Type 0} where
  abbrev pub store : ℕ → Frame V → Memory V → Memory V
  store a f m = record m { frames = update m.frames a (some f) }

  -- `coroutine_handle::destroy`, of a frame that is alive.
  unfoldable pub destroy : ℕ → Memory V → Memory V
  destroy a m = record m { frames = update m.frames a none }

  -- `get_return_object` and `initial_suspend`: a new frame that is suspended at its start.
  unfoldable pub new_task : Body V → Memory V → ℕ × Memory V
  new_task body m = (
    m.next,
    record m {
      frames =
          update m.frames m.next (some (record { point = at body; caller = none; value = none }));
      next = suc m.next;
    },
  )

  abbrev pub is_final : Point V → Bool
  is_final (at body) = false
  is_final (awaits a k) = false
  is_final (sleeps k) = false
  is_final final = true

  -- `Awaitable::await_ready` of a frame.
  unfoldable pub await_ready : Frame V → Bool
  await_ready f = is_final f.point

  -- `TaskPromise::result`.
  unfoldable pub result : Frame V → Run V
  result f = elim f.value [ none ↦ fault | some v ↦ done v ]

  -- `FinalAwaiter::await_suspend`.
  unfoldable pub final_suspend : ℕ → Frame V → Memory V → Control × Memory V
  unfolding destroy
  final_suspend a f m = elim f.caller [ none ↦ (ended, destroy a m) | some p ↦ (resumes p, m) ]

  -- `co_await` of the new task at `c` by the frame at `a`: `await_ready`, and `await_suspend`.
  unfoldable pub transfer : ℕ → Frame V → ℕ → (V → Body V) → Memory V → Run (Control × Memory V)
  unfolding await_ready
  transfer a f c k m =
      let m' = store a (record f { point = awaits c k }) m in
      elim (m'.frames c) [
        | none ↦ fault
        | some g ↦
            if await_ready g
            then done (resumes a, m')
            else done (resumes c, store c (record g { caller = some a }) m')
      ]

  -- The frame at `a` until control passes on.
  unfoldable pub resume_at : ℕ → Frame V → Point V → Memory V → Run (Control × Memory V)
  unfolding destroy new_task result final_suspend transfer
  resume_at a f (at (co_return v)) m =
      let f' = record f { point = final; value = some v } in
      done (final_suspend a f' (store a f' m))
  resume_at a f (at (co_await_task body k)) m = let (c, m') = new_task body m in transfer a f c k m'
  resume_at a f (at (co_await_event k)) m =
      done (sleeping a, store a (record f { point = sleeps k }) m)
  resume_at a f (at (emits v body)) m = done (
    resumes a,
    record (store a (record f { point = at body }) m) { written = m.written ++ v ∷ [] },
  )
  resume_at a f (awaits c k) m = elim (m.frames c) [
    | none ↦ fault
    | some g ↦
        result g >>= λ v. done (resumes a, store a (record f { point = at (k v) }) (destroy c m))
  ]
  resume_at a f (sleeps k) m = fault
  resume_at a f final m = fault

  -- `handle.resume()`, up to the next transfer of control.
  unfoldable pub resume : ℕ → Memory V → Run (Control × Memory V)
  unfolding resume_at
  resume a m = elim (m.frames a) [ none ↦ fault | some f ↦ resume_at a f f.point m ]

  -- A callback of libuv with a value for the frame that sleeps.
  unfoldable pub call_back : ℕ → V → Memory V → Run (Control × Memory V)
  call_back a v m = elim (m.frames a) [
    | none ↦ fault
    | some f ↦ elim f.point [
      | at body ↦ fault
      | awaits c k ↦ fault
      | sleeps k ↦ done (resumes a, store a (record f { point = at (k v) }) m)
      | final ↦ fault
    ]
  ]

  -- The event loop over the values that libuv will call back with.
  unfoldable pub run_loop : ℕ → Control → List V → Memory V → Run (Control × Memory V)
  unfolding resume call_back
  run_loop zero control events m = hang
  run_loop (suc fuel) (resumes a) events m =
      resume a m >>= λ (control, m'). run_loop fuel control events m'
  run_loop (suc fuel) (sleeping a) [] m = done (sleeping a, m)
  run_loop (suc fuel) (sleeping a) (v ∷ events) m =
      call_back a v m >>= λ (control, m'). run_loop fuel control events m'
  run_loop (suc fuel) ended events m = done (ended, m)

  -- `block_on`: the frame of a task is taken from it and resumed.
  unfoldable pub block_on : ℕ → Body V → List V → Memory V → Run (Control × Memory V)
  unfolding new_task run_loop
  block_on fuel body events m = let (a, m') = new_task body m in run_loop fuel (resumes a) events m'
