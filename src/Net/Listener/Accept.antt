-- ===== src/Net/Listener/Accept.antt =====
-- `co_await listener.accept()`, in every order of its steps.
use uvio.Prelude.{◌≡◌, ◌⊎◌, refl, ◌∙◌, true, some}
use uvio.Common.Result.{ok}
use uvio.Common.Stoi.{ℤ}
use uvio.Await.{Awaiter, running, resumed, Waiting, begin, Reach}
use uvio.Await.Progress.{settled-Returns}
use uvio.Net.Listener.{AcceptAwaiter, accept_start, accept_callback, accept_suspend, accept_resume}

pub accept_callback_handle :
    (status : ℤ) (a : AcceptAwaiter) → (accept_callback status a).1 ≡ a.handle
unfolding accept_callback
accept_callback_handle status a = refl

pub accept_callback_ready :
    (status : ℤ) (a : AcceptAwaiter) → (accept_callback status a).0.ready ≡ true
unfolding accept_callback
accept_callback_ready status a = refl

pub accept_suspend_handle : (a : AcceptAwaiter) → (accept_suspend a).handle ≡ true
unfolding accept_suspend
accept_suspend_handle a = refl

module _ {Stream : Type 0} (client : Stream) where
  pub accept_resume_client : (a : AcceptAwaiter) → (accept_resume client a).0 ≡ ok client
  unfolding accept_resume
  accept_resume_client a = refl

  abbrev pub accept_awaiter : Awaiter
  accept_awaiter = record {
    State = AcceptAwaiter;
    Event = ℤ;
    Value = Stream;
    start = accept_start;
    await_ready = λ a. a.ready;
    await_suspend = accept_suspend;
    await_resume = accept_resume client;
    callback = accept_callback;
    has_handle = λ a. a.handle;
    Settles = λ status. Unit {0};
    outcome = λ status. ok client;
    Fresh = λ a. Unit {0};
    start_fresh = tt;
    suspend_fresh = λ a new. tt;
    start_ready = refl;
    start_handle = refl;
    suspend_handle = accept_suspend_handle;
    callback_handle = λ status a h. accept_callback_handle status a ∙ h;
    callback_wakes = λ status a good h. accept_callback_handle status a ∙ h;
    callback_ready = λ status a good. accept_callback_ready status a;
    callback_outcome = λ status a new good. accept_resume_client ((accept_callback status a).0);
  }

  -- Once libuv has called back for a connection, with whatever status, `co_await listener.accept()`
  -- comes back with a stream: the coroutine is past it or goes on without being suspended.
  pub co_await-accept :
      {s : Waiting accept_awaiter} (status : ℤ)
      → Reach accept_awaiter (begin accept_awaiter) s
      → s.called ≡ some status
      → ((s.coroutine ≡ resumed) ⊎ ((s.coroutine ≡ running) × (s.awaiter.ready ≡ true)))
        × ((accept_resume client s.awaiter).0 ≡ ok client)
  co_await-accept status r came = settled-Returns accept_awaiter status r tt came
