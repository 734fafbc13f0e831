-- ===== src/Io/Ports.antt =====
-- What the codecs need of a reader and of a writer, with the laws that a buffered reader and writer
-- fulfil (`Io.Ports.Buffered`).
pub mod Buffered
pub mod Ends
use uvio.Prelude.{ℕ, ◌+◌, ◌^◌, ◌<◌, ◌≡◌, List, ◌++◌, length, take, drop, Option, some}
use uvio.Common.Result.{Result, ok, Run, done}
use uvio.Io.Buffer.{find}

pub record ByteReader : Type 1 where
  pub State : Type 0
  -- The span as it is before and after the call.
  pub read_exact : List ℕ → State → Run (Result (Unit {0}) × List ℕ × State)
  pub IsReady : State → Type 0
  -- The bytes that have not been read yet.
  pub pending : State → List ℕ
  pub read_exact_law :
      (buf xs more : List ℕ) (s : State)
      → IsReady s
      → length xs ≡ length buf
      → pending s ≡ xs ++ more
      → (s' : State) × (read_exact buf s ≡ done (ok tt, xs, s')) × IsReady s' × (pending s' ≡ more)

-- A reader that also reads up to a flag, which it appends to a string with what stands before it.
pub record TextReader : Type 1 where
  pub bytes : ByteReader
  pub read_until : List ℕ → List ℕ → bytes.State → Run (Result ℕ × List ℕ × bytes.State)
  pub read_until_law :
      (buf end_flag : List ℕ) (n : ℕ) (s : bytes.State)
      → bytes.IsReady s
      → 0 < length end_flag
      → find end_flag (bytes.pending s) ≡ some n
      → (size : ℕ) × (s' : bytes.State) × (read_until buf end_flag s
          ≡ done (ok size, buf ++ take (n + length end_flag) (bytes.pending s), s'))
        × bytes.IsReady s'
        × (bytes.pending s' ≡ drop (n + length end_flag) (bytes.pending s))

pub record ByteWriter : Type 1 where
  pub State : Type 0
  pub write : List ℕ → State → Run (Result ℕ × State)
  pub flush : State → Run (Result (Unit {0}) × State)
  pub IsReady : State → Type 0
  -- The bytes written so far, and those of them that have left the buffer.
  pub written : State → List ℕ
  pub sent : State → List ℕ
  pub write_law :
      (buf : List ℕ) (s : State)
      → length buf < 2 ^ 31
      → IsReady s
      → (n : ℕ) × (s' : State) × (write buf s ≡ done (ok n, s'))
        × IsReady s'
        × (written s' ≡ written s ++ buf)
  pub flush_law :
      (s : State)
      → IsReady s
      → (s' : State) × (flush s ≡ done (ok tt, s'))
        × IsReady s'
        × (written s' ≡ written s)
        × (sent s' ≡ written s)
