-- ===== src/Task/Drive.antt =====
-- What the frames do is what the body means: each resumption runs on until a coroutine waits or the
-- first one ends, and the event loop plays the values that libuv calls back with.
use uvio.Prelude.{ℕ, ◌≡◌, refl, sym, ap, ◌∙◌, Option, List, [], ◌∷◌, ◌++◌, append-nil, append_assoc}
use uvio.Task.{
  Body, co_return, co_await_task, co_await_event, emits, at, sleeps, Frame, Memory, Control,
  resumes, sleeping, ended, store, destroy,
}
use uvio.Task.Meaning.{Tree, returns, waits, writes, and_then, meaning, prints, prints-append}
use uvio.Task.Chain.{
  Callers, frame, Stands, move-Stands, called, called-Stands, returned, returned-Stands,
  ended-clean,
}
use uvio.Task.Steps.{
  Runs, Runs-here, Runs-then, Runs-resume, resume_emits, resume_event, resume_task, resume_return,
  ending, resumed_caller, resume_last,
}

module _ {V : Type 0} where
  -- What is left of the meaning of a body with these callers.
  abbrev pub unwind : Tree V → Callers V → Tree V
  unwind t [] = t
  unwind t ((p, k) ∷ ks) = unwind (and_then t (λ v. meaning (k v))) ks

  pub unwind-writes :
      (v : V) (t : Tree V) (ks : Callers V) → unwind (writes v t) ks ≡ writes v (unwind t ks)
  unwind-writes v t [] = refl
  unwind-writes v t ((p, k) ∷ ks) = unwind-writes v (and_then t (λ v. meaning (k v))) ks

  pub unwind-waits :
      (f : V → Tree V) (ks : Callers V) → unwind (waits f) ks ≡ waits (λ v. unwind (f v) ks)
  unwind-waits f [] = refl
  unwind-waits f ((p, k) ∷ ks) = unwind-waits (λ v. and_then (f v) (λ w. meaning (k w))) ks

  module _ (base : ℕ → Option (Frame V)) (es : List V) where
    -- A stretch that writes `outs` and comes to where `left` is what is left of `t`.
    pub record Gets (a : ℕ) (m : Memory V) (t : Tree V) (c : Control) (m' : Memory V)
        (outs : List V) (left : Tree V) : Type 0 where
      pub runs : Runs (resumes a) es m c es m'
      pub out : m'.written ≡ m.written ++ outs
      pub same : t ≡ prints outs left

    Gets-then :
        {a b : ℕ} {c : Control} {m m' m'' : Memory V} {s t u : Tree V} {xs ys : List V}
        → Gets a m s (resumes b) m' xs t
        → Gets b m' t c m'' ys u
        → Gets a m s c m'' (xs ++ ys) u
    Gets-then {a} {b} {c} {m} {m'} {m''} {s} {t} {u} {xs} {ys} g h = record {
      runs = Runs-then g.runs h.runs;
      out = h.out ∙ ap (λ w. w ++ ys) g.out ∙ append_assoc m.written xs ys;
      same = g.same ∙ ap (prints xs) h.same ∙ sym (prints-append xs ys u);
    }

    -- A stretch that writes nothing.
    Gets-silent :
        {a : ℕ} {c : Control} {m m' : Memory V} {t : Tree V}
        → Runs (resumes a) es m c es m'
        → m'.written ≡ m.written
        → Gets a m t c m' [] t
    Gets-silent {a} {c} {m} {m'} {t} r e = record {
      runs = r;
      out = e ∙ sym (append-nil m.written);
      same = refl;
    }

    -- The coroutine at `a` is about to return, or one sleeps.
    data Halts (a : ℕ) (ks : Callers V) (m : Memory V) (t : Tree V) : Type 0 where
      returning :
          (v : V) (outs : List V) (m' : Memory V)
          → Gets a m t (resumes a) m' outs (unwind (returns v) ks)
          → Stands base m' a (at (co_return v)) ks
          → Halts a ks m t
      falls_asleep :
          (l : ℕ) (k : V → Body V) (js : Callers V) (outs : List V) (m' : Memory V)
          → Gets a m t (sleeping l) m' outs (unwind (waits (λ v. meaning (k v))) js)
          → Stands base m' l (sleeps k) js
          → Halts a ks m t

    Halts-then :
        {a : ℕ} {ks : Callers V} {m m' : Memory V} {s t : Tree V} {xs : List V}
        → Gets a m s (resumes a) m' xs t
        → Halts a ks m' t
        → Halts a ks m s
    Halts-then {a} {ks} {m} {m'} {s} {t} {xs} g (returning v outs m'' h st) =
        returning v (xs ++ outs) m'' (Gets-then g h) st
    Halts-then {a} {ks} {m} {m'} {s} {t} {xs} g (falls_asleep l k js outs m'' h st) =
        falls_asleep l k js (xs ++ outs) m'' (Gets-then g h) st

    -- The coroutine at `a` has returned to its caller at `p`.
    to_caller :
        (a p : ℕ) (v : V) (k : V → Body V) (ks : Callers V) (m : Memory V)
        → Stands base m a (at (co_return v)) ((p, k) ∷ ks)
        → Runs (resumes a) es m (resumes p) es (returned a p v k ks (ending v ((p, k) ∷ ks)) m)
    to_caller a p v k ks m st =
        Runs-then (Runs-resume a m es (resume_return p v k st))
          (Runs-resume p (store a (ending v ((p, k) ∷ ks)) m) es (resumed_caller v k st))

    -- A coroutine runs until it is about to return or one sleeps that it awaits.
    run_body :
        (body : Body V) (a : ℕ) (ks : Callers V) (m : Memory V)
        → Stands base m a (at body) ks
        → Halts a ks m (unwind (meaning body) ks)
    run_body (co_return v) a ks m st =
        returning v [] m (Gets-silent (Runs-here (resumes a) es m) refl) st
    run_body (co_await_event k) a ks m st =
        falls_asleep a k ks [] (store a (frame (sleeps k) ks) m)
          (Gets-silent (Runs-resume a m es (resume_event k st)) refl)
          (move-Stands (sleeps k) m.written st)
    run_body (emits v body) a ks m st =
        let m1 = record (store a (frame (at body) ks) m) { written = m.written ++ v ∷ [] } in
        Halts-then
          (record {
            runs = Runs-resume a m es (resume_emits v body st);
            out = refl;
            same = unwind-writes v (meaning body) ks;
          })
          (run_body body a ks m1 (move-Stands (at body) (m.written ++ v ∷ []) st))
    run_body (co_await_task body k) a ks m st =
        let c = m.next in
        let m1 = called a k ks body m in
        let enter = Gets-silent (Runs-resume a m es (resume_task body k st)) refl in
        elim (run_body body c ((a, k) ∷ ks) m1 (called-Stands body k st)) [
          | falls_asleep l j js outs m2 g st2 ↦ falls_asleep l j js outs m2 (Gets-then enter g) st2
          | returning v outs m2 g st2 ↦
              let m3 = returned c a v k ks (ending v ((a, k) ∷ ks)) m2 in
              let back = Gets-silent (to_caller c a v k ks m2 st2) refl in
              Halts-then (Gets-then enter (Gets-then g back))
                (run_body (k v) a ks m3 (returned-Stands v k (ending v ((a, k) ∷ ks)) st2))
        ]

    -- The first coroutine has ended, and memory is as it was without it, or one sleeps.
    pub data Rests (a : ℕ) (m : Memory V) (t : Tree V) : Type 0 where
      ends :
          (v : V) (outs : List V) (m' : Memory V)
          → Gets a m t ended m' outs (returns v)
          → ((j : ℕ) → m'.frames j ≡ base j)
          → Rests a m t
      rests :
          (l : ℕ) (k : V → Body V) (js : Callers V) (outs : List V) (m' : Memory V)
          → Gets a m t (sleeping l) m' outs (unwind (waits (λ v. meaning (k v))) js)
          → Stands base m' l (sleeps k) js
          → Rests a m t

    Rests-then :
        {a b : ℕ} {m m' : Memory V} {s t : Tree V} {xs : List V}
        → Gets a m s (resumes b) m' xs t
        → Rests b m' t
        → Rests a m s
    Rests-then {a} {b} {m} {m'} {s} {t} {xs} g (ends v outs m'' h clean) =
        ends v (xs ++ outs) m'' (Gets-then g h) clean
    Rests-then {a} {b} {m} {m'} {s} {t} {xs} g (rests l k js outs m'' h st) =
        rests l k js (xs ++ outs) m'' (Gets-then g h) st

    pub run_chain :
        (ks : Callers V) (body : Body V) (a : ℕ) (m : Memory V)
        → Stands base m a (at body) ks
        → Rests a m (unwind (meaning body) ks)
    unfolding destroy
    run_chain [] body a m st = elim (run_body body a [] m st) [
      | falls_asleep l k js outs m1 g st1 ↦ rests l k js outs m1 g st1
      | returning v outs m1 g st1 ↦ Rests-then g (
          ends v [] (destroy a (store a (ending v []) m1))
            (Gets-silent (Runs-resume a m1 es (resume_last v st1)) refl)
            (ended-clean (ending v []) st1))
    ]
    run_chain ((p, k) ∷ ks) body a m st = elim (run_body body a ((p, k) ∷ ks) m st) [
      | falls_asleep l j js outs m1 g st1 ↦ rests l j js outs m1 g st1
      | returning v outs m1 g st1 ↦
          let m2 = returned a p v k ks (ending v ((p, k) ∷ ks)) m1 in
          Rests-then (Gets-then g (Gets-silent (to_caller a p v k ks m1 st1) refl))
            (run_chain ks (k v) p m2 (returned-Stands v k (ending v ((p, k) ∷ ks)) st1))
    ]
