-- ===== src/Await.antt =====
-- `co_await` of an awaiter that starts a libuv request in its constructor and whose callback comes
-- once, before or after the coroutine asks for it. The awaiters of uvio/net, uvio/time and uvio/work
-- are such; `Await.Progress` shows what holds of them in every order of the steps.
pub mod Progress
use uvio.Prelude.{ℕ, ◌≡◌, Bool, true, false, Option, none, some, if◌then◌else◌}
use uvio.Common.Result.{Result}

pub record Awaiter : Type 1 where
  pub State : Type 0
  -- What libuv hands to the callback, and what `await_resume` returns.
  pub Event : Type 0
  pub Value : Type 0
  pub start : State
  pub await_ready : State → Bool
  pub await_suspend : State → State
  pub await_resume : State → Result Value × State
  -- The callback, and whether it resumes the handle.
  pub callback : Event → State → State × Bool
  pub has_handle : State → Bool
  -- The events after which the awaiter is ready, and what it then returns.
  pub Settles : Event → Type 0
  pub outcome : Event → Result Value
  -- The states before the callback has come.
  pub Fresh : State → Type 0
  pub start_fresh : Fresh start
  pub suspend_fresh : (a : State) → Fresh a → Fresh (await_suspend a)
  pub start_ready : await_ready start ≡ false
  pub start_handle : has_handle start ≡ false
  pub suspend_handle : (a : State) → has_handle (await_suspend a) ≡ true
  pub callback_handle : (e : Event) (a : State) → has_handle a ≡ false → (callback e a).1 ≡ false
  pub callback_wakes :
      (e : Event) (a : State) → Settles e → has_handle a ≡ true → (callback e a).1 ≡ true
  pub callback_ready : (e : Event) (a : State) → Settles e → await_ready ((callback e a).0) ≡ true
  pub callback_outcome :
      (e : Event) (a : State)
      → Fresh a
      → Settles e
      → (await_resume ((callback e a).0)).0 ≡ outcome e

-- Where the coroutine stands: before the `co_await`, suspended by it, or past it.
pub data Coroutine : Type 0 where
  running suspended resumed : Coroutine

module _ (A : Awaiter) where
  pub record Waiting : Type 0 where
    pub awaiter : A.State
    pub coroutine : Coroutine
    pub called : Option A.Event

  abbrev pub begin : Waiting
  begin = record { awaiter = A.start; coroutine = running; called = none }

  unfoldable pub complete : A.Event → Waiting → Waiting
  complete e s =
      let (a, wakes) = A.callback e s.awaiter in
      record { awaiter = a; coroutine = if wakes then resumed else s.coroutine; called = some e }

  pub data Step (s : Waiting) : Waiting → Type 0 where
    goes_on :
        s.coroutine ≡ running
        → A.await_ready s.awaiter ≡ true
        → Step s (record s { coroutine = resumed })
    suspends :
        s.coroutine ≡ running
        → A.await_ready s.awaiter ≡ false
        → Step s (record s { awaiter = A.await_suspend s.awaiter; coroutine = suspended })
    completes : (e : A.Event) → s.called ≡ none → Step s (complete e s)

  pub data Reach (s : Waiting) : Waiting → Type 0 where
    here : Reach s s
    later : {t u : Waiting} → Reach s t → Step t u → Reach s u
