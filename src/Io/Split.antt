-- ===== src/Io/Split.antt =====
-- uvio/io/split.hpp, and `TcpStream::into_split`: the two halves share a stream by `std::shared_ptr`.
-- A half holds the address of the shared stream, or null; the heap counts the halves of each.
pub mod Reunite
use uvio.Prelude.{ℕ, suc, ◌+◌, ◌-◌, Option, none, some, ◌==◌, if◌then◌else◌}
use uvio.Prelude.Family.{update}
use uvio.Common.Result.{Result, ok, unexpected, Run, done, fault, ◌>>=◌, uvio_error, reunite_error}

pub record Heap (Io : Type 0) : Type 0 where
  -- The address that the next `std::make_shared` takes.
  pub next : ℕ
  pub cells : ℕ → Option Io
  pub use_count : ℕ → ℕ

-- `OwnedReadHalf` and `OwnedWriteHalf`: their `stream_`.
abbrev pub Half : Type 0
Half = Option ℕ

module _ {Io : Type 0} where
  unfoldable pub into_split : Io → Heap Io → Half × Half × Heap Io
  into_split io heap = (
    some heap.next,
    some heap.next,
    record {
      next = suc heap.next;
      cells = update heap.cells heap.next (some io);
      use_count = update heap.use_count heap.next 2;
    },
  )

  -- A shared pointer let go: the last one frees the stream.
  unfoldable pub release : Half → Heap Io → Heap Io
  release none heap = heap
  release (some a) heap =
      let left = heap.use_count a - 1 in
      record heap {
        cells = if left == 0 then update heap.cells a none else heap.cells;
        use_count = update heap.use_count a left;
      }

  -- `take_inner`: the stream is moved out, and the pointer let go.
  unfoldable pub take_inner : Half → Heap Io → Run (Result Io × Half × Heap Io)
  unfolding release
  take_inner none heap = fault
  take_inner (some a) heap = elim (heap.cells a) [
    | none ↦ fault
    | some io ↦ done (ok io, none, release (some a) heap)
  ]

  -- `reunite`: its result, the two halves, and the heap. `inner()` of a null half is no stream.
  unfoldable pub reunite : Half → Half → Heap Io → Run (Result Io × Half × Half × Heap Io)
  unfolding release take_inner uvio_error
  reunite none w heap = fault
  reunite (some a) none heap = fault
  reunite (some a) (some b) heap =
      let same : Run (Result Io × Half × Half × Heap Io) =
        take_inner (some a) (release (some b) heap) >>= λ (ret, r, heap').
        done (ret, r, none, heap') in
      if a == b then same else done (unexpected (uvio_error reunite_error), some a, some b, heap)
