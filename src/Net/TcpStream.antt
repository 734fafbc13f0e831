-- ===== src/Net/TcpStream.antt =====
-- uvio/net/tcp_stream.hpp: `TcpStream::read_exact`, the loop over single reads of the socket.
pub mod Owner
pub mod Exact
pub mod Awaiters
pub mod Await
use uvio.Prelude.{ℕ, zero, suc, List, [], ◌∷◌, ◌++◌, length, drop, ◌==◌, if◌then◌else◌}
use uvio.Common.Result.{
  Result, ok, unexpected, Run, done, hang, fault, ◌>>=◌, uvio_error, unexpected_eof,
}
use uvio.Io.Source.{Source}

module _ (S : Source) where
  open S use {Io, read}

  -- `buf` is what the span holds; the list of the result is what it holds at the end.
  unfoldable pub read_exact : ℕ → List ℕ → Io → Run (Result (Unit {0}) × List ℕ × Io)
  read_exact fuel [] io = done (ok tt, [], io)
  read_exact zero (x ∷ buf) io = hang
  read_exact (suc fuel) (x ∷ buf) io =
      let (ret, io') = read (length (x ∷ buf)) io in
      elim ret [
        | unexpected e ↦ done (unexpected e, x ∷ buf, io')
        | ok ys ↦
            let rest = (do
              (ret', tail, io'') ← read_exact fuel (drop (length ys) (x ∷ buf)) io'
              done (ret', ys ++ tail, io'')) in
            if length ys == 0
            then done (unexpected (uvio_error unexpected_eof), x ∷ buf, io')
            else rest
      ]
