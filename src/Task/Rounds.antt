-- ===== src/Task/Rounds.antt =====
-- More rounds than the event loop needs change nothing.
use uvio.Prelude.{ℕ, zero, suc, ◌≡◌, List, [], ◌∷◌}
use uvio.Common.Result.{Run, done, fault, hang, ◌>>=◌}
use uvio.Task.{Memory, Control, resumes, sleeping, ended, resume, call_back, run_loop}
use uvio.Task.Steps.{plus}

bind_more :
    {A B : Type 0} (r : Run A) (g h : A → Run B) (x : B)
    → ((a : A) → g a ≡ done x → h a ≡ done x)
    → (r >>= g) ≡ done x
    → (r >>= h) ≡ done x
bind_more (done a) g h x keep e = keep a e
bind_more fault g h x keep e = absurd (cc e)
bind_more hang g h x keep e = absurd (cc e)

module _ {V : Type 0} where
  -- A round more changes nothing.
  one_round_more :
      (fuel : ℕ) (c : Control) (es : List V) (m : Memory V) (x : Control × Memory V)
      → run_loop fuel c es m ≡ done x
      → run_loop (suc fuel) c es m ≡ done x
  unfolding run_loop
  one_round_more zero c es m x e = absurd (cc e)
  one_round_more (suc fuel) (resumes a) es m x e =
      bind_more (resume a m) (λ (c, m'). run_loop fuel c es m')
        (λ (c, m'). run_loop (suc fuel) c es m') x (λ (c, m') e. one_round_more fuel c es m' x e) e
  one_round_more (suc fuel) (sleeping a) [] m x e = e
  one_round_more (suc fuel) (sleeping a) (v ∷ es) m x e =
      bind_more (call_back a v m) (λ (c, m'). run_loop fuel c es m')
        (λ (c, m'). run_loop (suc fuel) c es m') x (λ (c, m') e. one_round_more fuel c es m' x e) e
  one_round_more (suc fuel) ended es m x e = e

  pub rounds_more :
      (n fuel : ℕ) (c : Control) (es : List V) (m : Memory V) (x : Control × Memory V)
      → run_loop fuel c es m ≡ done x
      → run_loop (plus n fuel) c es m ≡ done x
  rounds_more zero fuel c es m x e = e
  rounds_more (suc n) fuel c es m x e =
      one_round_more (plus n fuel) c es m x (rounds_more n fuel c es m x e)
