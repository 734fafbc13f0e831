-- ===== src/Common/Coro.antt =====
-- A coroutine over some state that ends with a `Result`. The bind is the pattern
-- `if (auto ret = co_await m; !ret) co_return unexpected{ret.error()};` of the source.
use uvio.Common.Result.{Run, done, Result, ok, unexpected, Error, ◌>>=◌ as run_bind}

abbrev pub Coro {ℓ} : Type 0 → Type ℓ → Type ℓ
Coro S A = S → Run (Result A × S)

abbrev pub co_return {ℓ} : {S : Type 0} {A : Type ℓ} → A → Coro S A
co_return a s = done (ok a, s)

abbrev pub co_fail {ℓ} : {S : Type 0} {A : Type ℓ} → Error → Coro S A
co_fail e s = done (unexpected e, s)

abbrev pub on_result {ℓ κ} :
    {S : Type 0} {A : Type ℓ} {B : Type κ} → (A → Coro S B) → Result A × S → Run (Result B × S)
on_result f (ok a, s) = f a s
on_result f (unexpected e, s) = done (unexpected e, s)

infixl 5 ◌>>=◌ ◌>>◌
abbrev pub ◌>>=◌ {ℓ κ} :
    {S : Type 0} {A : Type ℓ} {B : Type κ} → Coro S A → (A → Coro S B) → Coro S B
◌>>=◌ m f s = run_bind (m s) (on_result f)

abbrev pub ◌>>◌ {ℓ κ} : {S : Type 0} {A : Type ℓ} {B : Type κ} → Coro S A → Coro S B → Coro S B
m >> k = m >>= λ _. k
