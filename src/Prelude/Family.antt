-- ===== src/Prelude/Family.antt =====
-- Families `ℕ → A`, as of the threads and coroutines of a system, updated at one index.
use Prim.Native.Nat.{ℕ}
use mathlib.Core.Path.{◌≡◌, refl}
use mathlib.Core.Logic.{◌≢◌, ite}
use native.Mathlib.Decide.{ℕ_discrete}

abbrev pub update {ℓ} : {A : Type ℓ} → (ℕ → A) → ℕ → A → ℕ → A
update f i a j = ite (ℕ_discrete i j) a (f j)

module _ {ℓ} {A : Type ℓ} where
  pub update_same : (f : ℕ → A) (i : ℕ) (a : A) → update f i a i ≡ a
  update_same f i a = elim (ℕ_discrete i i) as (λ d. ite d a (f i) ≡ a) [
    | yes p ↦ refl
    | no n ↦ absurd (n refl)
  ]

  pub update_other : (f : ℕ → A) (i : ℕ) (a : A) (j : ℕ) → i ≢ j → update f i a j ≡ f j
  update_other f i a j h = elim (ℕ_discrete i j) as (λ d. ite d a (f j) ≡ f j) [
    | yes p ↦ absurd (h p)
    | no n ↦ refl
  ]
