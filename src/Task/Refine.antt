-- ===== src/Task/Refine.antt =====
-- The event loop plays what the body of the first coroutine means.
use mathlib.Core.Path.{subst}
use uvio.Prelude.{
  ℕ, ◌≤◌, ◌≡◌, refl, sym, ap, ◌∙◌, Option, none, some, List, [], ◌∷◌, ◌++◌, append-nil,
  append_assoc, arith,
}
use uvio.Prelude.Family.{update_same, update_other}
use uvio.Common.Result.{done}
use uvio.Task.{
  Body, at, sleeps, Frame, Memory, Control, resumes, sleeping, ended, store, new_task, run_loop,
  block_on,
}
use uvio.Task.Meaning.{Tree, returns, waits, meaning, play, play-prints}
use uvio.Task.Chain.{Callers, frame, Stands, move-Stands}
use uvio.Task.Steps.{plus, Runs-call_back, called_back}
use uvio.Task.Rounds.{rounds_more}
use uvio.Task.Drive.{unwind, unwind-waits, Gets, ends, rests, run_chain}

module _ {V : Type 0} where
  -- How a run of the event loop may end: the first coroutine has returned and memory is as `base`
  -- says, or a coroutine waits and there are no more events.
  pub data Outcome (base : ℕ → Option (Frame V)) (left : Tree V) (c : Control) (m : Memory V)
      : Type 0 where
    returned_all :
        (v : V)
        → left ≡ returns v
        → c ≡ ended
        → ((j : ℕ) → m.frames j ≡ base j)
        → Outcome base left c m
    waits_on : (l : ℕ) (f : V → Tree V) → left ≡ waits f → c ≡ sleeping l → Outcome base left c m

  -- A run of the event loop that writes and leaves what the tree says.
  pub record Plays (base : ℕ → Option (Frame V)) (c : Control) (es : List V) (m : Memory V)
      (t : Tree V) : Type 0 where
    pub fuel : ℕ
    pub stops : Control
    pub after : Memory V
    pub run : run_loop fuel c es m ≡ done (stops, after)
    pub wrote : after.written ≡ m.written ++ (play t es).0
    pub outcome : Outcome base (play t es).1 stops after

  Plays-then :
      {base : ℕ → Option (Frame V)} {a : ℕ} {c : Control} {es : List V} {m m' : Memory V}
      {outs : List V} {t left : Tree V}
      → Gets base es a m t c m' outs left
      → Plays base c es m' left
      → Plays base (resumes a) es m t
  Plays-then {base} {a} {c} {es} {m} {m'} {outs} {t} {left} g p =
      let same : play t es ≡ (outs ++ (play left es).0, (play left es).1) =
        ap (λ t. play t es) g.same ∙ play-prints outs left es in
      record {
        fuel = plus g.runs.rounds p.fuel;
        stops = p.stops;
        after = p.after;
        run = g.runs.run p.fuel ∙ p.run;
        wrote =
            p.wrote
            ∙ ap (λ w. w ++ (play left es).0) g.out
            ∙ append_assoc m.written outs (play left es).0
            ∙ sym (ap (λ r. m.written ++ r.0) same);
        outcome = subst (λ r. Outcome base r.1 p.stops p.after) (sym same) p.outcome;
      }

  -- A coroutine sleeps and there are no more events.
  Plays-rest :
      {base : ℕ → Option (Frame V)} (l : ℕ) (f : V → Tree V) (m : Memory V)
      → Plays base (sleeping l) [] m (waits f)
  unfolding run_loop
  Plays-rest {base} l f m = record {
    fuel = 1;
    stops = sleeping l;
    after = m;
    run = refl;
    wrote = sym (append-nil m.written);
    outcome = waits_on l f refl refl;
  }

  Plays-end :
      {base : ℕ → Option (Frame V)} (v : V) (es : List V) (m : Memory V)
      → ((j : ℕ) → m.frames j ≡ base j)
      → Plays base ended es m (returns v)
  unfolding run_loop
  Plays-end {base} v es m clean = record {
    fuel = 1;
    stops = ended;
    after = m;
    run = refl;
    wrote = sym (append-nil m.written);
    outcome = returned_all v refl refl clean;
  }

  -- The callback for the coroutine that sleeps.
  Plays-event :
      {base : ℕ → Option (Frame V)} {l : ℕ} {js : Callers V} {m : Memory V} (v : V) (k : V → Body V)
      (es : List V) (f : V → Tree V)
      → Stands base m l (sleeps k) js
      → Plays base (resumes l) es (store l (frame (at (k v)) js) m) (f v)
      → Plays base (sleeping l) (v ∷ es) m (waits f)
  Plays-event {base} {l} {js} {m} v k es f st p =
      let step = Runs-call_back l m v es (called_back v k st) in
      record {
        fuel = plus step.rounds p.fuel;
        stops = p.stops;
        after = p.after;
        run = step.run p.fuel ∙ p.run;
        wrote = p.wrote;
        outcome = p.outcome;
      }

  play_all :
      (base : ℕ → Option (Frame V)) (es : List V) (ks : Callers V) (body : Body V) (a : ℕ)
      (m : Memory V)
      → Stands base m a (at body) ks
      → Plays base (resumes a) es m (unwind (meaning body) ks)
  play_all base [] ks body a m st = elim (run_chain base [] ks body a m st) [
    | ends v outs m' g clean ↦ Plays-then g (Plays-end v [] m' clean)
    | rests l k js outs m' g st' ↦ Plays-then g (
        subst (Plays base (sleeping l) [] m') (sym (unwind-waits (λ v. meaning (k v)) js))
          (Plays-rest l (λ v. unwind (meaning (k v)) js) m'))
  ]
  play_all base (e ∷ es) ks body a m st = elim (run_chain base (e ∷ es) ks body a m st) [
    | ends v outs m' g clean ↦ Plays-then g (Plays-end v (e ∷ es) m' clean)
    | rests l k js outs m' g st' ↦ Plays-then g (
        subst (Plays base (sleeping l) (e ∷ es) m') (sym (unwind-waits (λ v. meaning (k v)) js)) (
          Plays-event e k es (λ v. unwind (meaning (k v)) js) st'
            (play_all base es js (k e) l (store l (frame (at (k e)) js) m')
              (move-Stands (at (k e)) m'.written st'))))
  ]

  -- A new task in a memory that has nothing from the next address on.
  new_task-Stands :
      (body : Body V) (m : Memory V)
      → ((j : ℕ) → m.next ≤ j → m.frames j ≡ none)
      → Stands m.frames (new_task body m).1 m.next (at body) []
  unfolding new_task
  new_task-Stands body m clear =
      let f : Option (Frame V) = some (frame (at body) []) in
      record {
        below = omega arith;
        leaf = update_same m.frames m.next f;
        chain = tt;
        around = λ j h. update_other m.frames m.next f j h;
        free = λ j e. ap m.frames (sym e) ∙ clear m.next (omega arith);
        fresh = λ j h.
            update_other m.frames m.next f j (λ e. absurd (omega (arith, h, e)))
            ∙ clear j (omega (arith, h));
      }

  -- What `block_on` may end with.
  pub record Blocks (body : Body V) (es : List V) (m : Memory V) : Type 0 where
    pub fuel : ℕ
    pub stops : Control
    pub after : Memory V
    pub run : (more : ℕ) → block_on (plus more fuel) body es m ≡ done (stops, after)
    pub wrote : after.written ≡ m.written ++ (play (meaning body) es).0
    pub outcome : Outcome m.frames (play (meaning body) es).1 stops after

  -- In a memory that has no frame from the next address on, there is a number of rounds with which, and
  -- with any more, block_on returns, without a fault, for any task and any events: it has written what the meaning of the task
  -- writes when it is played with the events; it ends when the meaning has returned, and has then left
  -- the frames as they were, or with a coroutine that sleeps, when the meaning still waits.
  pub block_on-play :
      (body : Body V) (es : List V) (m : Memory V)
      → ((j : ℕ) → m.next ≤ j → m.frames j ≡ none)
      → Blocks body es m
  unfolding block_on new_task
  block_on-play body es m clear =
      let p =
        play_all m.frames es [] body m.next (new_task body m).1 (new_task-Stands body m clear) in
      record {
        fuel = p.fuel;
        stops = p.stops;
        after = p.after;
        run = λ more.
            rounds_more more p.fuel (resumes m.next) es (new_task body m).1 (p.stops, p.after)
              p.run;
        wrote = p.wrote;
        outcome = p.outcome;
      }
