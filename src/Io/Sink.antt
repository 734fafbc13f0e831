-- ===== src/Io/Sink.antt =====
-- What a buffered writer needs of the IO that it wraps, as libuv documents a stream write: while
-- the stream is open, a write of at least one byte hands over all bytes in order and reports their
-- number.
use uvio.Prelude.{ℕ, ◌≡◌, ◌<◌, List, ◌++◌, length}
use uvio.Common.Result.{Result, ok}

pub record Sink : Type 1 where
  pub Io : Type 0
  -- `co_await io.write(span)`.
  pub write : List ℕ → Io → Result ℕ × Io
  -- The bytes handed over so far.
  pub sent : Io → List ℕ
  pub IsOpen : Io → Type 0
  pub write_open :
      (xs : List ℕ) (io : Io)
      → IsOpen io
      → 0 < length xs
      → (io' : Io) × (write xs io ≡ (ok (length xs), io')) × IsOpen io' × (sent io' ≡ sent io ++ xs)
