-- ===== src/Io/Source.antt =====
-- What a buffered reader needs of the IO that it wraps: an asynchronous read into a span, as libuv
-- documents it. Its reads return the stream's bytes in order, at most as many as the span holds, and
-- after the last byte the error that ended the stream. libuv may also call back with no bytes on a
-- stream that has not ended (nread == 0, its EAGAIN); a stream without such reads is steady.
use uvio.Prelude.{ℕ, ◌≤◌, ◌<◌, ◌≡◌, ◌≢◌, List, [], ◌++◌, length}
use uvio.Common.Result.{Error, Result, ok, unexpected}

pub record Source : Type 1 where
  pub Io : Type 0
  -- `co_await io.read(span)` on a span of so many bytes: the bytes written to its front.
  pub read : ℕ → Io → Result (List ℕ) × Io
  -- The bytes that are still to come, and the error that follows them.
  pub rest : Io → List ℕ
  pub stop : Io → Error
  -- No read of it, this one or a later one, comes back with nread == 0.
  pub Steady : Io → Type 0
  pub read_some :
      (n : ℕ) (io : Io)
      → Steady io
      → 0 < n
      → rest io ≢ []
      → (xs : List ℕ) × (io' : Io) × (read n io ≡ (ok xs, io'))
        × (0 < length xs)
        × (length xs ≤ n)
        × (rest io ≡ xs ++ rest io')
        × (stop io' ≡ stop io)
        × Steady io'
  pub read_end : (n : ℕ) (io : Io) → 0 < n → rest io ≡ [] → read n io ≡ (unexpected (stop io), io)
