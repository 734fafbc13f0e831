-- ===== src/Task/Handle.antt =====
-- uvio/coroutine/task.hpp: the class Task, which owns the frame of a coroutine, its moves, `take` and
-- its destructor.
pub mod Owned
use native.Mathlib.Decide.{ℕ_discrete}
use uvio.Prelude.{
  ℕ, zero, suc, ◌≤◌, ◌<◌, ◌≡◌, ◌≢◌, refl, sym, ap, ◌∙◌, Bool, true, false, ◌==◌, Option, none, some,
  ◌⊎◌, inl, inr, arith, if◌then◌else◌,
}
use uvio.Prelude.Family.{update, update_same, update_other}
use uvio.Common.Result.{Run, done, fault, ◌>>=◌}
use uvio.Task.{Body, at, Frame, Memory, destroy, new_task}

-- `handle_` of each task; null of a task that is not alive too.
abbrev pub Handles : Type 0
Handles = ℕ → Option ℕ

-- `Task(Task &&)`.
abbrev pub move_into : ℕ → ℕ → Handles → Handles
move_into i j handles = update (update handles i (handles j)) j none

-- `operator=(Task &&)`.
unfoldable pub assign : ℕ → ℕ → Handles → Handles
assign i j handles = if i == j then handles else move_into i j handles

-- `take`, which terminates the program on null.
unfoldable pub take_handle : ℕ → Handles → Run (ℕ × Handles)
take_handle i handles = elim (handles i) [ none ↦ fault | some a ↦ done (a, update handles i none) ]

module _ {V : Type 0} where
  -- `Task(std::coroutine_handle)`, of the call of a coroutine.
  unfoldable pub call : ℕ → Body V → Handles × Memory V → Handles × Memory V
  call i body (handles, m) = let (a, m') = new_task body m in (update handles i (some a), m')

  -- `~Task`. To destroy a frame twice is a fault.
  unfoldable pub drop_task : ℕ → Handles × Memory V → Run (Handles × Memory V)
  drop_task i (handles, m) = elim (handles i) [
    | none ↦ done (handles, m)
    | some a ↦ elim (m.frames a) [
      | none ↦ fault
      | some f ↦ done (update handles i none, destroy a m)
    ]
  ]

  -- What the program may do with tasks: call a coroutine, move a task into a new one or to one that
  -- is there, take a frame, end the life of a task, and run a frame that was taken to its end.
  pub data Step : Handles × Memory V → Handles × Memory V → Type 0 where
    calls :
        {h : Handles} {m : Memory V} (i : ℕ) (body : Body V)
        → h i ≡ none
        → Step (h, m) (call i body (h, m))
    moves : {h : Handles} {m : Memory V} (i j : ℕ) → h i ≡ none → Step (h, m) (move_into i j h, m)
    assigns : {h : Handles} {m : Memory V} (i j : ℕ) → Step (h, m) (assign i j h, m)
    takes :
        {h h' : Handles} {m : Memory V} (i a : ℕ)
        → take_handle i h ≡ done (a, h')
        → Step (h, m) (h', m)
    drops : {s s' : Handles × Memory V} (i : ℕ) → drop_task i s ≡ done s' → Step s s'
    ends :
        {h : Handles} {m : Memory V} (a : ℕ)
        → ((i : ℕ) → h i ≢ some a)
        → Step (h, m) (h, destroy a m)

  -- What the program comes to from no tasks.
  pub data Reach : Handles × Memory V → Type 0 where
    start : (m : Memory V) → Reach (λ i. none, m)
    later : {s s' : Handles × Memory V} → Reach s → Step s s' → Reach s'
