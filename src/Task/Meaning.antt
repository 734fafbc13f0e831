-- ===== src/Task/Meaning.antt =====
-- What a body means without frames: what it writes, where it waits, and what it returns.
use uvio.Prelude.{◌≡◌, refl, ap, List, [], ◌∷◌, ◌++◌}
use uvio.Task.{Body, co_return, co_await_task, co_await_event, emits}

pub data Tree (V : Type 0) : Type 0 where
  returns : V → Tree V
  waits : (V → Tree V) → Tree V
  writes : V → Tree V → Tree V

module _ {V : Type 0} where
  abbrev pub and_then : Tree V → (V → Tree V) → Tree V
  and_then (returns v) k = k v
  and_then (waits f) k = waits (λ v. and_then (f v) k)
  and_then (writes v t) k = writes v (and_then t k)

  abbrev pub meaning : Body V → Tree V
  meaning (co_return v) = returns v
  meaning (co_await_task body k) = and_then (meaning body) (λ v. meaning (k v))
  meaning (co_await_event k) = waits (λ v. meaning (k v))
  meaning (emits v body) = writes v (meaning body)

  -- What is written, and what is left, when libuv calls back with these values.
  abbrev pub play : Tree V → List V → List V × Tree V
  play (returns v) events = ([], returns v)
  play (waits f) [] = ([], waits f)
  play (waits f) (v ∷ events) = play (f v) events
  play (writes v t) events = let (vs, t') = play t events in (v ∷ vs, t')

  -- Writing some values before a tree.
  abbrev pub prints : List V → Tree V → Tree V
  prints [] t = t
  prints (v ∷ vs) t = writes v (prints vs t)

  pub prints-append : (us vs : List V) (t : Tree V) → prints (us ++ vs) t ≡ prints us (prints vs t)
  prints-append [] vs t = refl
  prints-append (u ∷ us) vs t = ap (writes u) (prints-append us vs t)

  pub play-prints :
      (vs : List V) (t : Tree V) (events : List V)
      → play (prints vs t) events ≡ (vs ++ (play t events).0, (play t events).1)
  play-prints [] t events = refl
  play-prints (v ∷ vs) t events = ap (λ (us, t'). (v ∷ us, t')) (play-prints vs t events)
