-- ===== src/Timer/Await.antt =====
-- `co_await sleep(...)` and `co_await execute(...)`, in every order of their steps.
use uvio.Prelude.{◌≡◌, ◌⊎◌, refl, ◌∙◌, true, false, some}
use uvio.Common.Result.{ok}
use uvio.Common.Stoi.{ℤ}
use uvio.Await.{Awaiter, running, resumed, Waiting, begin, Reach}
use uvio.Await.Progress.{settled-Returns}
use uvio.Net.TcpStream.Awaiters.{at_most_zero}
use uvio.Timer.{
  SleepAwaiter, sleep_start, sleep_callback, sleep_suspend, sleep_resume, WorkAwaiter, work_start,
  work_callback, work_ready, work_suspend, work_resume,
}

pub sleep_callback_handle : (u : Unit {0}) (a : SleepAwaiter) → (sleep_callback u a).1 ≡ a.handle
unfolding sleep_callback
sleep_callback_handle u a = refl

pub sleep_callback_ready : (u : Unit {0}) (a : SleepAwaiter) → (sleep_callback u a).0.ready ≡ true
unfolding sleep_callback
sleep_callback_ready u a = refl

pub sleep_resume_ok : (a : SleepAwaiter) → (sleep_resume a).0 ≡ ok tt
unfolding sleep_resume
sleep_resume_ok a = refl

pub sleep_suspend_handle : (a : SleepAwaiter) → (sleep_suspend a).handle ≡ true
unfolding sleep_suspend
sleep_suspend_handle a = refl

abbrev pub sleep_awaiter : Awaiter
sleep_awaiter = record {
  State = SleepAwaiter;
  Event = Unit {0};
  Value = Unit {0};
  start = sleep_start;
  await_ready = λ a. a.ready;
  await_suspend = sleep_suspend;
  await_resume = sleep_resume;
  callback = sleep_callback;
  has_handle = λ a. a.handle;
  Settles = λ u. Unit {0};
  outcome = λ u. ok tt;
  Fresh = λ a. Unit {0};
  start_fresh = tt;
  suspend_fresh = λ a new. tt;
  start_ready = refl;
  start_handle = refl;
  suspend_handle = sleep_suspend_handle;
  callback_handle = λ u a h. sleep_callback_handle u a ∙ h;
  callback_wakes = λ u a good h. sleep_callback_handle u a ∙ h;
  callback_ready = λ u a good. sleep_callback_ready u a;
  callback_outcome = λ u a new good. sleep_resume_ok ((sleep_callback u a).0);
}

pub work_callback_handle : (status : ℤ) (a : WorkAwaiter) → (work_callback status a).1 ≡ a.handle
unfolding work_callback
work_callback_handle status a = refl

pub work_callback_ready :
    (status : ℤ) (a : WorkAwaiter)
    → at_most_zero status ≡ true
    → work_ready ((work_callback status a).0) ≡ true
unfolding work_callback work_ready
work_callback_ready status a h = h

pub work_resume_ok : (a : WorkAwaiter) → (work_resume a).0 ≡ ok tt
unfolding work_resume
work_resume_ok a = refl

pub work_suspend_handle : (a : WorkAwaiter) → (work_suspend a).handle ≡ true
unfolding work_suspend
work_suspend_handle a = refl

pub work_start_ready : work_ready work_start ≡ false
unfolding work_ready
work_start_ready = refl

abbrev pub work_awaiter : Awaiter
work_awaiter = record {
  State = WorkAwaiter;
  Event = ℤ;
  Value = Unit {0};
  start = work_start;
  await_ready = work_ready;
  await_suspend = work_suspend;
  await_resume = work_resume;
  callback = work_callback;
  has_handle = λ a. a.handle;
  Settles = λ status. at_most_zero status ≡ true;
  outcome = λ status. ok tt;
  Fresh = λ a. Unit {0};
  start_fresh = tt;
  suspend_fresh = λ a new. tt;
  start_ready = work_start_ready;
  start_handle = refl;
  suspend_handle = work_suspend_handle;
  callback_handle = λ status a h. work_callback_handle status a ∙ h;
  callback_wakes = λ status a good h. work_callback_handle status a ∙ h;
  callback_ready = work_callback_ready;
  callback_outcome = λ status a new good. work_resume_ok ((work_callback status a).0);
}

-- Once the timer has gone off, `co_await sleep(...)` comes back with success: the coroutine is past
-- it or goes on without being suspended.
pub co_await-sleep :
    {s : Waiting sleep_awaiter}
    → Reach sleep_awaiter (begin sleep_awaiter) s
    → s.called ≡ some tt
    → ((s.coroutine ≡ resumed) ⊎ ((s.coroutine ≡ running) × (s.awaiter.ready ≡ true)))
      × ((sleep_resume s.awaiter).0 ≡ ok tt)
co_await-sleep r came = settled-Returns sleep_awaiter tt r tt came

-- Once the work has ended with a status of zero or below, `co_await execute(...)` comes back: the
-- coroutine is past it or goes on without being suspended.
pub co_await-work :
    {s : Waiting work_awaiter} (status : ℤ)
    → Reach work_awaiter (begin work_awaiter) s
    → at_most_zero status ≡ true
    → s.called ≡ some status
    → (s.coroutine ≡ resumed) ⊎ ((s.coroutine ≡ running) × (work_ready s.awaiter ≡ true))
co_await-work status r good came = (settled-Returns work_awaiter status r good came).0
