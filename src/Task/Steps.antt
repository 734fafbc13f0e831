-- ===== src/Task/Steps.antt =====
-- Stretches of the event loop, and the single transfers of control.
use uvio.Prelude.{ℕ, zero, suc, ◌≡◌, refl, ap, ◌∙◌, Option, some, List, [], ◌∷◌, ◌++◌, arith}
use uvio.Prelude.Family.{update, update_same, update_other}
use uvio.Common.Result.{done}
use uvio.Task.{
  Body, co_return, co_await_task, co_await_event, emits, Point, at, awaits, sleeps, final, Frame,
  Memory, Control, resumes, sleeping, ended, store, destroy, new_task, await_ready, result,
  final_suspend, transfer, resume_at, resume, call_back, run_loop,
}
use uvio.Task.Chain.{Callers, caller_of, frame, Stands, called, returned}

-- `n` more rounds than `f`.
abbrev pub plus : ℕ → ℕ → ℕ
plus zero f = f
plus (suc n) f = suc (plus n f)

plus_assoc : (n k f : ℕ) → plus (plus n k) f ≡ plus n (plus k f)
plus_assoc zero k f = refl
plus_assoc (suc n) k f = ap suc (plus_assoc n k f)

module _ {V : Type 0} where
  -- One stretch of the event loop.
  pub record Runs (c : Control) (es : List V) (m : Memory V) (c' : Control) (es' : List V)
      (m' : Memory V) : Type 0 where
    pub rounds : ℕ
    pub run : (f : ℕ) → run_loop (plus rounds f) c es m ≡ run_loop f c' es' m'

  pub Runs-here : (c : Control) (es : List V) (m : Memory V) → Runs c es m c es m
  Runs-here c es m = record { rounds = 0; run = λ f. refl }

  pub Runs-then :
      {c d e : Control} {es fs gs : List V} {m m' m'' : Memory V}
      → Runs c es m d fs m'
      → Runs d fs m' e gs m''
      → Runs c es m e gs m''
  Runs-then {c} {d} {e} {es} {fs} {gs} {m} r r' = record {
    rounds = plus r.rounds r'.rounds;
    run = λ f.
        ap (λ t. run_loop t c es m) (plus_assoc r.rounds r'.rounds f)
        ∙ r.run (plus r'.rounds f)
        ∙ r'.run f;
  }

  pub Runs-resume :
      {d : Control} {m' : Memory V} (a : ℕ) (m : Memory V) (es : List V)
      → resume a m ≡ done (d, m')
      → Runs (resumes a) es m d es m'
  unfolding run_loop
  Runs-resume a m es e = record { rounds = 1; run = λ f. rw (e, run_loop) refl }

  pub Runs-call_back :
      {d : Control} {m' : Memory V} (a : ℕ) (m : Memory V) (v : V) (es : List V)
      → call_back a v m ≡ done (d, m')
      → Runs (sleeping a) (v ∷ es) m d es m'
  unfolding run_loop
  Runs-call_back a m v es e = record { rounds = 1; run = λ f. rw (e, run_loop) refl }

  -- A frame that has come to its end with a value.
  abbrev pub ending : V → Callers V → Frame V
  ending v ks = record { point = final; caller = caller_of ks; value = some v }

  -- The transfers of control.
  module _ {base : ℕ → Option (Frame V)} {m : Memory V} {a : ℕ} {ks : Callers V} where
    pub resume_emits :
        (v : V) (body : Body V)
        → Stands base m a (at (emits v body)) ks
        → resume a m
          ≡ done
              (resumes a, record (store a (frame (at body) ks) m) { written = m.written ++ v ∷ [] })
    unfolding resume resume_at
    resume_emits v body st = rw (st.leaf, resume) refl

    pub resume_event :
        (k : V → Body V)
        → Stands base m a (at (co_await_event k)) ks
        → resume a m ≡ done (sleeping a, store a (frame (sleeps k) ks) m)
    unfolding resume resume_at
    resume_event k st = rw (st.leaf, resume) refl

    pub called_back :
        (v : V) (k : V → Body V)
        → Stands base m a (sleeps k) ks
        → call_back a v m ≡ done (resumes a, store a (frame (at (k v)) ks) m)
    unfolding call_back
    called_back v k st = rw (st.leaf, call_back) refl

    new_there :
        (body : Body V) (k : V → Body V)
        → Stands base m a (at (co_await_task body k)) ks
        → update
            (update m.frames m.next (some (frame (at body) [])))
            a
            (some (frame (awaits m.next k) ks))
            m.next
          ≡ some (frame (at body) [])
    new_there body k st =
        update_other (update m.frames m.next (some (frame (at body) []))) a
          (some (frame (awaits m.next k) ks)) m.next (λ e. absurd (omega (arith, e, st.below)))
        ∙ update_same m.frames m.next (some (frame (at body) []))

    pub resume_task :
        (body : Body V) (k : V → Body V)
        → Stands base m a (at (co_await_task body k)) ks
        → resume a m ≡ done (resumes m.next, called a k ks body m)
    unfolding resume resume_at new_task transfer await_ready
    resume_task body k st = rw (st.leaf, resume) (rw (new_there body k st, transfer) refl)

    pub resume_return :
        (p : ℕ) (v : V) (k : V → Body V)
        → Stands base m a (at (co_return v)) ((p, k) ∷ ks)
        → resume a m
          ≡ done (resumes p, store a (record { point = final; caller = some p; value = some v }) m)
    unfolding resume resume_at final_suspend
    resume_return p v k st = rw (st.leaf, resume) refl

  -- The caller goes on when the frame that it awaits has come to its end.
  module _ {base : ℕ → Option (Frame V)} {m : Memory V} {a p : ℕ} {ks : Callers V} (v : V)
      (k : V → Body V) {point : Point V} where
    pub resumed_caller :
        Stands base m a point ((p, k) ∷ ks)
        → resume p (store a (ending v ((p, k) ∷ ks)) m)
          ≡ done (resumes p, returned a p v k ks (ending v ((p, k) ∷ ks)) m)
    unfolding resume resume_at result destroy
    resumed_caller st =
        let below = st.chain.0 in
        let there : update m.frames a (some (ending v ((p, k) ∷ ks))) p
            ≡ some (frame (awaits a k) ks) =
          update_other m.frames a (some (ending v ((p, k) ∷ ks))) p
            (λ e. absurd (omega (arith, e, below)))
          ∙ st.chain.1 in
        rw (there, resume)
          (rw (update_same m.frames a (some (ending v ((p, k) ∷ ks))), resume_at) refl)

  module _ {base : ℕ → Option (Frame V)} {m : Memory V} {a : ℕ} (v : V) where
    pub resume_last :
        Stands base m a (at (co_return v)) []
        → resume a m ≡ done (ended, destroy a (store a (ending v []) m))
    unfolding resume resume_at final_suspend
    resume_last st = rw (st.leaf, resume) refl
