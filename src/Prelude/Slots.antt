-- ===== src/Prelude/Slots.antt =====
-- Owners of things that have numbers, where each slot holds one or none: what an update and a move
-- leave in a slot.
use native.Mathlib.Decide.{ℕ_discrete}
use Prim.Native.Nat.{ℕ}
use mathlib.Core.Path.{◌≡◌, sym, ap, ◌∙◌}
use mathlib.Core.Logic.{◌≢◌, ◌⊎◌, inl, inr}
use mathlib.Core.Option.{Option, none, some}
use uvio.Prelude.Family.{update, update_same, update_other}

abbrev pub Slots : Type 0
Slots = ℕ → Option ℕ

pub update-some :
    (h : Slots) (i : ℕ) (v : Option ℕ) (j a : ℕ)
    → update h i v j ≡ some a
    → ((i ≡ j) × (v ≡ some a)) ⊎ ((i ≢ j) × (h j ≡ some a))
update-some h i v j a e = elim (ℕ_discrete i j) [
  | yes p ↦ inl (p, sym (update_same h i v) ∙ ap (update h i v) p ∙ e)
  | no q ↦ inr (q, sym (update_other h i v j q) ∙ e)
]

pub erased_some : (h : Slots) (i j a : ℕ) → update h i none j ≡ some a → (i ≢ j) × (h j ≡ some a)
erased_some h i j a e = elim (update-some h i none j a e) [ inl (p, c) ↦ absurd (cc c) | inr r ↦ r ]

-- Where a handle comes from, after a move from `j` to `i`.
pub moved_some :
    (h : Slots) (i j x a : ℕ)
    → update (update h i (h j)) j none x ≡ some a
    → (j ≢ x) × (((i ≡ x) × (h j ≡ some a)) ⊎ ((i ≢ x) × (h x ≡ some a)))
moved_some h i j x a e =
    let (q, e') = erased_some (update h i (h j)) j x a e in (q, update-some h i (h j) x a e')
