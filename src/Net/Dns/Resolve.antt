-- ===== src/Net/Dns/Resolve.antt =====
-- `co_await DNS::resolve(...)`, in every order of its steps.
use uvio.Prelude.{
  ℕ, ◌<◌, ◌≡◌, ◌⊎◌, refl, ap, ◌∙◌, true, false, some, List, [], ◌∷◌, ◌++◌, All, length, replicate,
  overwrite, ltb, ◌==◌, arith,
}
use uvio.Common.Result.{Result, unexpected, uvio_error, resolve_failed}
use uvio.Await.{Awaiter, running, resumed, Waiting, begin, Reach}
use uvio.Await.Progress.{settled-Returns}
use uvio.Net.Dns.{
  ResolveAwaiter, Resolution, found, failed, resolve_start, resolve_callback, resolve_suspend,
  up_to_nul, address_of, resolve_resume,
}

-- What `resolve` returns.
abbrev pub resolution : Resolution → Result (List ℕ)
resolution (found text) = address_of text
resolution (failed n) = unexpected (uvio_error resolve_failed)

-- A text that fits, without a NUL.
abbrev pub Fits : Resolution → Type 0
Fits (found text) = (length text < 16) × All (λ c. (c == 0) ≡ false) text
Fits (failed n) = Unit {0}

up_to_nul-overwrite :
    (text buf : List ℕ)
    → length text < length buf
    → All (λ c. (c == 0) ≡ false) text
    → up_to_nul (overwrite 0 (text ++ 0 ∷ []) buf) ≡ text
unfolding up_to_nul
up_to_nul-overwrite text [] h p = absurd (omega (arith, h))
up_to_nul-overwrite [] (b ∷ buf) h p = refl
up_to_nul-overwrite (c ∷ text) (b ∷ buf) h (q, p) =
    rw (q, up_to_nul-overwrite text buf (omega (arith, h)) p) refl

pub resolve_outcome :
    (e : Resolution) (a : ResolveAwaiter)
    → a.ipv4addr ≡ replicate 17 0
    → Fits e
    → (resolve_resume ((resolve_callback e a).0)).0 ≡ resolution e
unfolding resolve_resume resolve_callback
resolve_outcome (found text) a new (h, p) =
    let e : ltb (length text) 16 ≡ true = grind (arith, h) in
    rw (e, new) (ap address_of (up_to_nul-overwrite text (replicate 17 0) (omega (arith, h)) p))
resolve_outcome (failed n) a new u = rw new refl

pub resolve_callback_handle :
    (e : Resolution) (a : ResolveAwaiter) → (resolve_callback e a).1 ≡ a.handle
unfolding resolve_callback
resolve_callback_handle (found text) a = refl
resolve_callback_handle (failed n) a = refl

pub resolve_callback_ready :
    (e : Resolution) (a : ResolveAwaiter) → (resolve_callback e a).0.resolved ≡ true
unfolding resolve_callback
resolve_callback_ready (found text) a = refl
resolve_callback_ready (failed n) a = refl

pub resolve_suspend_handle : (a : ResolveAwaiter) → (resolve_suspend a).handle ≡ true
unfolding resolve_suspend
resolve_suspend_handle a = refl

pub resolve_suspend_fresh :
    (a : ResolveAwaiter)
    → a.ipv4addr ≡ replicate 17 0
    → (resolve_suspend a).ipv4addr ≡ replicate 17 0
unfolding resolve_suspend
resolve_suspend_fresh a new = new

abbrev pub resolve_awaiter : Awaiter
resolve_awaiter = record {
  State = ResolveAwaiter;
  Event = Resolution;
  Value = List ℕ;
  start = resolve_start;
  await_ready = λ a. a.resolved;
  await_suspend = resolve_suspend;
  await_resume = resolve_resume;
  callback = resolve_callback;
  has_handle = λ a. a.handle;
  Settles = Fits;
  outcome = resolution;
  Fresh = λ a. a.ipv4addr ≡ replicate 17 0;
  start_fresh = refl;
  suspend_fresh = resolve_suspend_fresh;
  start_ready = refl;
  start_handle = refl;
  suspend_handle = resolve_suspend_handle;
  callback_handle = λ e a h. resolve_callback_handle e a ∙ h;
  callback_wakes = λ e a good h. resolve_callback_handle e a ∙ h;
  callback_ready = λ e a good. resolve_callback_ready e a;
  callback_outcome = resolve_outcome;
}

-- Once libuv has called back, with an address whose text is of less than 16 characters and without
-- a NUL or with a failure, `co_await DNS::resolve(...)` comes back: the coroutine is past it or goes
-- on without being suspended. It gets the text, and `ResolveFailed` after a failure or if the text is
-- empty.
pub co_await-resolve :
    {s : Waiting resolve_awaiter} (e : Resolution)
    → Reach resolve_awaiter (begin resolve_awaiter) s
    → Fits e
    → s.called ≡ some e
    → ((s.coroutine ≡ resumed) ⊎ ((s.coroutine ≡ running) × (s.awaiter.resolved ≡ true)))
      × ((resolve_resume s.awaiter).0 ≡ resolution e)
co_await-resolve e r good came = settled-Returns resolve_awaiter e r good came
