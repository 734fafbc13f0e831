-- ===== src/Sync/Latch.antt =====
-- uvio/sync/latch.hpp: the latch, its awaiters and the calls of `count_down`, an operation for each of
-- the code's atomic operations, as one thread sees them. Awaiters and calls are numbered; the linked list that begins at `head_` is the
-- list of the awaiters on it, since `next_` is not written after an awaiter was put there.
pub mod Turns
pub mod Lowering
pub mod Once
use uvio.Prelude.{
  ℕ, suc, ◌+◌, ◌-◌, ◌%◌, ◌^◌, ◌<◌, ◌≡◌, Bool, true, false, List, [], ◌∷◌, ◌==◌, if◌then◌else◌,
}
use uvio.Prelude.Family.{update}

-- `expected_` is the 64-bit word of the signed counter.
pub record Latch : Type 0 where
  pub expected : ℕ
  pub head : List ℕ

unfoldable pub try_wait : Latch → Bool
try_wait l = l.expected == 0

-- `fetch_sub` of `count_down`, and whether the caller then notifies.
unfoldable pub fetch_sub : ℕ → Latch → Latch × Bool
fetch_sub amount l =
    (record l { expected = (l.expected + 2 ^ 64 - amount) % 2 ^ 64 }, l.expected == amount)

-- The exchange of `await_suspend`, once it succeeds.
unfoldable pub push : ℕ → Latch → Latch
push w l = record l { head = w ∷ l.head }

-- Where the coroutine of an awaiter stands: before `await_ready`, between that and the exchange,
-- between the exchange and the second `try_wait`, suspended, or past the `co_await`.
pub data Phase : Type 0 where
  outside asked pushed suspended resumed : Phase

-- Where a call of `count_down` stands: before `fetch_sub` or ended, before the load of `notify_all`,
-- or with these awaiters left to resume.
pub data Call : Type 0 where
  idle loading : Call
  walking : List ℕ → Call

pub record System : Type 0 where
  pub latch : Latch
  pub phase : ℕ → Phase
  pub call : ℕ → Call
  -- How often the coroutine was resumed behind `await_suspend`, by itself or by a call.
  pub resumes : ℕ → ℕ

unfoldable pub init : ℕ → System
init count = record {
  latch = record { expected = count; head = [] };
  phase = λ w. outside;
  call = λ i. idle;
  resumes = λ w. 0;
}

-- `await_ready`.
unfoldable pub ask : ℕ → System → System
unfolding try_wait
ask w s = record s { phase = update s.phase w (if try_wait s.latch then resumed else asked) }

-- `await_suspend`, its two steps.
unfoldable pub put : ℕ → System → System
unfolding push
put w s = record s { latch = push w s.latch; phase = update s.phase w pushed }

unfoldable pub settle : ℕ → System → System
unfolding try_wait
settle w s =
    if try_wait s.latch
    then record s {
      phase = update s.phase w resumed;
      resumes = update s.resumes w (suc (s.resumes w));
    }
    else record s { phase = update s.phase w suspended }

-- `count_down` and `notify_all`, a step for each atomic operation and each `resume`.
unfoldable pub lower : ℕ → ℕ → System → System
unfolding fetch_sub
lower i amount s =
    let (latch, last) = fetch_sub amount s.latch in
    record s { latch = latch; call = update s.call i (if last then loading else idle) }

unfoldable pub load : ℕ → System → System
load i s = record s { call = update s.call i (walking s.latch.head) }

-- `count_down` up to the first `resume`: the caller that has brought the counter to zero notifies.
unfoldable pub count_down : ℕ → ℕ → System → System
unfolding lower load fetch_sub
count_down i amount s =
    let odd_is_update = (fetch_sub amount s.latch).1 in
    let s' = lower i amount s in if odd_is_update then load i s' else s'

abbrev pub woken : Phase → Phase
woken outside = outside
woken asked = asked
woken pushed = pushed
woken suspended = resumed
woken resumed = resumed

unfoldable pub wake : ℕ → ℕ → List ℕ → System → System
wake i w ws s = record s {
  call = update s.call i (walking ws);
  phase = update s.phase w (woken (s.phase w));
  resumes = update s.resumes w (suc (s.resumes w));
}

unfoldable pub leave : ℕ → System → System
leave i s = record s { call = update s.call i idle }
