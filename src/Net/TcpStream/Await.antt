-- ===== src/Net/TcpStream/Await.antt =====
-- `write`, `read` and `connect` of a stream, in every order of their steps.
use uvio.Prelude.{
  ℕ, zero, suc, ◌<◌, ◌≡◌, ◌≢◌, ◌⊎◌, refl, ◌∙◌, true, false, not, Option, none, some, List, [], ◌∷◌,
  length, ◌==◌, if◌then◌else◌, arith,
}
use uvio.Common.Result.{Result, ok, unexpected, uvio_error, write_zero, unclassified}
use uvio.Common.Stoi.{ℤ, pos, negsuc}
use uvio.Await.{
  Awaiter, Coroutine, running, suspended, resumed, Waiting, begin, complete, Step, Reach,
}
use uvio.Await.Progress.{settled-Returns}
use uvio.Net.TcpStream.Awaiters.{
  at_most_zero, is_zero, WriteAwaiter, write_start, write_callback, write_ready, write_suspend,
  write_resume, ReadAwaiter, Arrival, bytes, failed, read_start, read_callback, read_ready,
  read_suspend, read_resume, read_result, ConnectAwaiter, connect_start, connect_callback,
  connect_ready, connect_suspend, connect_resume,
}

-- What a write of `to_write` returns after a status.
abbrev pub written : List ℕ → ℤ → Result ℕ
written to_write status =
    if not (is_zero status)
    then unexpected (uvio_error unclassified)
    else if length to_write == 0
    then unexpected (uvio_error write_zero)
    else ok (length to_write)

module _ (to_write : List ℕ) where
  pub write_callback_handle :
      (status : ℤ) (a : WriteAwaiter) → (write_callback to_write status a).1 ≡ a.handle
  unfolding write_callback
  write_callback_handle status a = refl

  pub write_callback_ready :
      (status : ℤ) (a : WriteAwaiter)
      → at_most_zero status ≡ true
      → write_ready ((write_callback to_write status a).0) ≡ true
  unfolding write_callback write_ready
  write_callback_ready status a h = h

  pub write_callback_outcome :
      (status : ℤ) (a : WriteAwaiter)
      → (write_resume ((write_callback to_write status a).0)).0 ≡ written to_write status
  unfolding write_callback write_resume
  write_callback_outcome (pos zero) a = refl
  write_callback_outcome (pos (suc n)) a = refl
  write_callback_outcome (negsuc n) a = refl

  pub write_start_ready : write_ready write_start ≡ false
  unfolding write_ready
  write_start_ready = refl

  pub write_suspend_handle : (a : WriteAwaiter) → (write_suspend a).handle ≡ true
  unfolding write_suspend
  write_suspend_handle a = refl

  abbrev pub write_awaiter : Awaiter
  write_awaiter = record {
    State = WriteAwaiter;
    Event = ℤ;
    Value = ℕ;
    start = write_start;
    await_ready = write_ready;
    await_suspend = write_suspend;
    await_resume = write_resume;
    callback = write_callback to_write;
    has_handle = λ a. a.handle;
    Settles = λ status. at_most_zero status ≡ true;
    outcome = written to_write;
    Fresh = λ a. Unit {0};
    start_fresh = tt;
    suspend_fresh = λ a new. tt;
    start_ready = write_start_ready;
    start_handle = refl;
    suspend_handle = write_suspend_handle;
    callback_handle = λ status a h. write_callback_handle status a ∙ h;
    callback_wakes = λ status a good h. write_callback_handle status a ∙ h;
    callback_ready = write_callback_ready;
    callback_outcome = λ status a new good. write_callback_outcome status a;
  }

-- Once libuv has called back with a status, which is zero or below, `co_await stream.write(...)` comes
-- back: the coroutine is past it or goes on without being suspended. It gets the number of bytes
-- after status zero, an error of a write of nothing if there are none, and else `Unclassified`.
pub co_await-write :
    (to_write : List ℕ) {s : Waiting (write_awaiter to_write)} (status : ℤ)
    → Reach (write_awaiter to_write) (begin (write_awaiter to_write)) s
    → at_most_zero status ≡ true
    → s.called ≡ some status
    → ((s.coroutine ≡ resumed) ⊎ ((s.coroutine ≡ running) × (write_ready s.awaiter ≡ true)))
      × ((write_resume s.awaiter).0 ≡ written to_write status)
co_await-write to_write status r good came =
    settled-Returns (write_awaiter to_write) status r good came

-- What a read returns after an arrival.
abbrev pub arrived : ℕ → Arrival → Result ℕ
arrived uv_eof (bytes xs) = ok (length xs)
arrived uv_eof (failed n) = read_result uv_eof (negsuc n)

-- An arrival of bytes, after which a read is ready even before the coroutine asks for it.
abbrev pub Brings : Arrival → Type 0
Brings (bytes xs) = 0 < length xs
Brings (failed n) = ⊥

module _ (uv_eof : ℕ) (span : List ℕ) where
  pub read_callback_handle : (e : Arrival) (a : ReadAwaiter) → (read_callback e a).1 ≡ a.handle
  unfolding read_callback
  read_callback_handle (bytes xs) a = refl
  read_callback_handle (failed n) a = refl

  pub read_callback_ready :
      (e : Arrival) (a : ReadAwaiter) → Brings e → read_ready ((read_callback e a).0) ≡ true
  unfolding read_callback read_ready
  read_callback_ready (bytes []) a some_bytes = absurd (omega arith)
  read_callback_ready (bytes (x ∷ xs)) a some_bytes = refl
  read_callback_ready (failed n) a some_bytes = absurd some_bytes

  pub read_callback_outcome :
      (e : Arrival) (a : ReadAwaiter)
      → Brings e
      → (read_resume uv_eof ((read_callback e a).0)).0 ≡ arrived uv_eof e
  unfolding read_callback read_resume
  read_callback_outcome (bytes xs) a some_bytes = refl
  read_callback_outcome (failed n) a some_bytes = absurd some_bytes

  pub read_start_ready : read_ready (read_start span) ≡ false
  unfolding read_ready
  read_start_ready = refl

  pub read_suspend_handle : (a : ReadAwaiter) → (read_suspend a).handle ≡ true
  unfolding read_suspend
  read_suspend_handle a = refl

  abbrev pub read_awaiter : Awaiter
  read_awaiter = record {
    State = ReadAwaiter;
    Event = Arrival;
    Value = ℕ;
    start = read_start span;
    await_ready = read_ready;
    await_suspend = read_suspend;
    await_resume = read_resume uv_eof;
    callback = read_callback;
    has_handle = λ a. a.handle;
    Settles = Brings;
    outcome = arrived uv_eof;
    Fresh = λ a. Unit {0};
    start_fresh = tt;
    suspend_fresh = λ a new. tt;
    start_ready = read_start_ready;
    start_handle = refl;
    suspend_handle = read_suspend_handle;
    callback_handle = λ e a h. read_callback_handle e a ∙ h;
    callback_wakes = λ e a good h. read_callback_handle e a ∙ h;
    callback_ready = read_callback_ready;
    callback_outcome = λ e a new good. read_callback_outcome e a good;
  }

  -- Once some bytes have come, `co_await stream.read(...)` comes back with their number: the coroutine
  -- is past it or goes on without being suspended.
  pub co_await-read :
      {s : Waiting read_awaiter} (xs : List ℕ)
      → Reach read_awaiter (begin read_awaiter) s
      → 0 < length xs
      → s.called ≡ some (bytes xs)
      → ((s.coroutine ≡ resumed) ⊎ ((s.coroutine ≡ running) × (read_ready s.awaiter ≡ true)))
        × ((read_resume uv_eof s.awaiter).0 ≡ ok (length xs))
  co_await-read xs r good came = settled-Returns read_awaiter (bytes xs) r good came

-- `ConnectAwaiter`, for a stream that stands for the client.
module _ {Stream : Type 0} (client : Stream) where
  pub connect_callback_bare :
      (status : ℤ) (a : ConnectAwaiter) → a.handle ≡ false → (connect_callback status a).1 ≡ false
  unfolding connect_callback
  connect_callback_bare (pos zero) a h = h
  connect_callback_bare (pos (suc n)) a h = refl
  connect_callback_bare (negsuc n) a h = refl

  pub connect_callback_held :
      (status : ℤ) (a : ConnectAwaiter)
      → is_zero status ≡ true
      → a.handle ≡ true
      → (connect_callback status a).1 ≡ true
  unfolding connect_callback
  connect_callback_held status a good h = rw good h

  pub connect_callback_ready :
      (status : ℤ) (a : ConnectAwaiter)
      → is_zero status ≡ true
      → connect_ready ((connect_callback status a).0) ≡ true
  unfolding connect_callback connect_ready
  connect_callback_ready (pos zero) a good = refl
  connect_callback_ready (pos (suc n)) a good = cc
  connect_callback_ready (negsuc n) a good = cc

  pub connect_resume_client : (a : ConnectAwaiter) → (connect_resume client a).0 ≡ ok client
  unfolding connect_resume
  connect_resume_client a = refl

  pub connect_start_ready : connect_ready connect_start ≡ false
  unfolding connect_ready
  connect_start_ready = refl

  pub connect_suspend_handle : (a : ConnectAwaiter) → (connect_suspend a).handle ≡ true
  unfolding connect_suspend
  connect_suspend_handle a = refl

  abbrev pub connect_awaiter : Awaiter
  connect_awaiter = record {
    State = ConnectAwaiter;
    Event = ℤ;
    Value = Stream;
    start = connect_start;
    await_ready = connect_ready;
    await_suspend = connect_suspend;
    await_resume = connect_resume client;
    callback = connect_callback;
    has_handle = λ a. a.handle;
    Settles = λ status. is_zero status ≡ true;
    outcome = λ status. ok client;
    Fresh = λ a. Unit {0};
    start_fresh = tt;
    suspend_fresh = λ a new. tt;
    start_ready = connect_start_ready;
    start_handle = refl;
    suspend_handle = connect_suspend_handle;
    callback_handle = connect_callback_bare;
    callback_wakes = connect_callback_held;
    callback_ready = connect_callback_ready;
    callback_outcome = λ status a new good. connect_resume_client ((connect_callback status a).0);
  }

  connect_callback_failed :
      (status : ℤ) (a : ConnectAwaiter)
      → is_zero status ≡ false
      → (connect_callback status a).1 ≡ false
  unfolding connect_callback
  connect_callback_failed status a bad = rw bad refl

  -- A coroutine that sleeps and that no callback will come for.
  abbrev Asleep : Waiting connect_awaiter → Type 0
  Asleep s = (s.coroutine ≡ suspended) × (status : ℤ) × (s.called ≡ some status)

  complete-Asleep :
      (s : Waiting connect_awaiter) (status : ℤ)
      → s.coroutine ≡ suspended
      → is_zero status ≡ false
      → Asleep (complete connect_awaiter status s)
  unfolding complete
  complete-Asleep s status h bad =
      (rw (connect_callback_failed status s.awaiter bad) h, status, refl)

  not_running : (c : Coroutine) → c ≡ suspended → c ≢ running
  not_running c e e' = cc

  was_called : (o : Option ℤ) (status : ℤ) → o ≡ some status → o ≢ none
  was_called o status e e' = cc

  Step-Asleep : {s t : Waiting connect_awaiter} → Step connect_awaiter s t → Asleep s → Asleep t
  Step-Asleep {s} (Step.goes_on h h') (e, status, came) = absurd (not_running s.coroutine e h)
  Step-Asleep {s} (Step.suspends h h') (e, status, came) = absurd (not_running s.coroutine e h)
  Step-Asleep {s} (Step.completes e' h) (e, status, came) =
      absurd (was_called s.called status came h)

  Reach-Asleep : {s t : Waiting connect_awaiter} → Reach connect_awaiter s t → Asleep s → Asleep t
  Reach-Asleep Reach.here k = k
  Reach-Asleep (Reach.later r step) k = Step-Asleep step (Reach-Asleep r k)

  -- A coroutine that is suspended by `co_await TcpStream::connect(...)` when libuv calls back with
  -- a status other than zero stays suspended for ever.
  pub connect_failed-suspended :
      (s : Waiting connect_awaiter) {t : Waiting connect_awaiter} (status : ℤ)
      → s.coroutine ≡ suspended
      → is_zero status ≡ false
      → Reach connect_awaiter (complete connect_awaiter status s) t
      → t.coroutine ≡ suspended
  connect_failed-suspended s status h bad r = (Reach-Asleep r (complete-Asleep s status h bad)).0
