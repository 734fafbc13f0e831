-- ===== src/Tests/Awaiters.antt =====
-- A write and a connection whose callbacks come after the coroutine was suspended.
use native.Mathlib.Decide.{ℕ_discrete}
use uvio.Prelude.{ℕ, arith, ◌≡◌, refl, ◌⊎◌, true, none, some, List, [], ◌∷◌}
use uvio.Common.Result.{ok}
use uvio.Common.Stoi.{pos, negsuc}
use uvio.Await.{Waiting, Reach, Step, begin, complete, running, suspended, resumed}
use uvio.Net.Dns.{found, resolve_resume}
use uvio.Net.Dns.Resolve.{resolve_awaiter, co_await-resolve}
use uvio.Net.TcpStream.Owner as Owner
use uvio.Net.TcpStream.Owner.{
  no_streams, open_stream, close_stream, assign_stream, Sound, Reach-Sound,
}
use uvio.Net.TcpStream.Awaiters.{
  write_start, write_ready, write_suspend, write_resume, connect_start, connect_suspend,
}
use uvio.Net.TcpStream.Await.{
  write_awaiter, co_await-write, connect_awaiter, connect_failed-suspended,
}

abbrev two : List ℕ
two = 0x61 ∷ 0x62 ∷ []

abbrev writing : Waiting (write_awaiter two)
writing = record { awaiter = write_suspend write_start; coroutine = suspended; called = none }

abbrev wrote : Waiting (write_awaiter two)
wrote = complete (write_awaiter two) (pos 0) writing

wrote-Reach : Reach (write_awaiter two) (begin (write_awaiter two)) wrote
unfolding write_ready
wrote-Reach =
    Reach.later (Reach.later Reach.here (Step.suspends refl refl)) (Step.completes (pos 0) refl)

wrote_called : wrote.called ≡ some (pos 0)
unfolding complete
wrote_called = refl

co_await-write_example :
    ((wrote.coroutine ≡ resumed)
      ⊎ ((wrote.coroutine ≡ running) × (write_ready wrote.awaiter ≡ true)))
    × ((write_resume wrote.awaiter).0 ≡ ok 2)
co_await-write_example = co_await-write two (pos 0) wrote-Reach refl wrote_called

-- The stream of a client.
abbrev stream : ℕ
stream = 7

-- A connection that is refused, with status -111.
abbrev connecting : Waiting (connect_awaiter stream)
connecting = record {
  awaiter = connect_suspend connect_start;
  coroutine = suspended;
  called = none;
}

connect_failed-suspended_example :
    (complete (connect_awaiter stream) (negsuc 110) connecting).coroutine ≡ suspended
connect_failed-suspended_example =
    connect_failed-suspended stream connecting (negsuc 110) refl refl Reach.here

-- A name that is looked up, and comes back before the coroutine asks for it.
abbrev ip_text : List ℕ
ip_text = 0x31 ∷ 0x2E ∷ 0x31 ∷ 0x2E ∷ 0x31 ∷ 0x2E ∷ 0x31 ∷ []

abbrev looked_up : Waiting resolve_awaiter
looked_up = complete resolve_awaiter (found ip_text) (begin resolve_awaiter)

co_await-resolve_example :
    ((looked_up.coroutine ≡ resumed)
      ⊎ ((looked_up.coroutine ≡ running) × (looked_up.awaiter.resolved ≡ true)))
    × ((resolve_resume looked_up.awaiter).0 ≡ ok ip_text)
unfolding complete
co_await-resolve_example =
    co_await-resolve (found ip_text) (Reach.later Reach.here (Step.completes (found ip_text) refl))
      (omega arith, (refl, (refl, (refl, (refl, (refl, (refl, (refl, tt)))))))) refl

-- A stream that is assigned to itself loses its socket, which is closed.
self_moved :
    assign_stream 0 0 (open_stream 0 no_streams) ≡ close_stream 0 (open_stream 0 no_streams)
unfolding assign_stream
self_moved = refl

Reach-Sound_example : Sound (assign_stream 0 1 (open_stream 1 (open_stream 0 no_streams)))
unfolding open_stream ℕ_discrete
Reach-Sound_example = Reach-Sound (
    Owner.later (Owner.later (Owner.later Owner.start (Owner.opens 0 refl)) (Owner.opens 1 refl))
      (Owner.assigns 0 1))
