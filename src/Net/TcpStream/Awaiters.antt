-- ===== src/Net/TcpStream/Awaiters.antt =====
-- uvio/net/tcp_stream.hpp: the awaiters of `read`, `write` and `connect`. `UV_EOF` is a parameter.
use uvio.Prelude.{
  ℕ, zero, suc, Bool, true, false, not, List, length, ◌==◌, if◌then◌else◌, overwrite,
}
use uvio.Common.Result.{
  Result, ok, unexpected, uvio_error, unexpected_eof, write_zero, unclassified,
}
use uvio.Common.Stoi.{ℤ, pos, negsuc}

-- The tests on a status: `status <= 0`, `status == 0`, `nread > 0`.
abbrev pub at_most_zero : ℤ → Bool
at_most_zero (pos zero) = true
at_most_zero (pos (suc n)) = false
at_most_zero (negsuc n) = true

abbrev pub is_zero : ℤ → Bool
is_zero (pos zero) = true
is_zero (pos (suc n)) = false
is_zero (negsuc n) = false

-- `WriteAwaiter`; `to_write_`, which is not written after the constructor, is passed in.
pub record WriteAwaiter : Type 0 where
  pub handle : Bool
  pub status : ℤ
  pub nwritten : ℕ

abbrev pub write_start : WriteAwaiter
write_start = record { handle = false; status = pos 1; nwritten = 0 }

unfoldable pub write_callback : List ℕ → ℤ → WriteAwaiter → WriteAwaiter × Bool
write_callback to_write status a = (
  record a { status = status; nwritten = if is_zero status then length to_write else 0 },
  a.handle,
)

unfoldable pub write_ready : WriteAwaiter → Bool
write_ready a = at_most_zero a.status

unfoldable pub write_suspend : WriteAwaiter → WriteAwaiter
write_suspend a = record a { handle = true }

unfoldable pub write_resume : WriteAwaiter → Result ℕ × WriteAwaiter
write_resume a =
    let ret : Result ℕ =
      if not (is_zero a.status)
      then unexpected (uvio_error unclassified)
      else if a.nwritten == 0
      then unexpected (uvio_error write_zero)
      else ok a.nwritten in
    (ret, record a { handle = false })

-- `ReadAwaiter`: `buf` is what its span holds, and `reading` whether the socket reads for it.
pub record ReadAwaiter : Type 0 where
  pub handle : Bool
  pub reading : Bool
  pub buf : List ℕ
  pub nread : ℤ

-- What the read callback is called with: bytes, which libuv has put into the span, or an error.
pub data Arrival : Type 0 where
  bytes : List ℕ → Arrival
  failed : ℕ → Arrival

abbrev pub read_start : List ℕ → ReadAwaiter
read_start span = record { handle = false; reading = true; buf = span; nread = pos 0 }

unfoldable pub read_callback : Arrival → ReadAwaiter → ReadAwaiter × Bool
read_callback (bytes xs) a =
    (record a { buf = overwrite 0 xs a.buf; nread = pos (length xs) }, a.handle)
read_callback (failed n) a = (record a { nread = negsuc n }, a.handle)

unfoldable pub read_ready : ReadAwaiter → Bool
read_ready a = not (at_most_zero a.nread)

unfoldable pub read_suspend : ReadAwaiter → ReadAwaiter
read_suspend a = record a { handle = true }

-- `UV_EOF` is `negsuc uv_eof`.
abbrev pub read_result : ℕ → ℤ → Result ℕ
read_result uv_eof (pos n) = ok n
read_result uv_eof (negsuc n) =
    if n == uv_eof
    then unexpected (uvio_error unexpected_eof)
    else unexpected (uvio_error unclassified)

-- On an error the awaiter stays as it is.
unfoldable pub read_resume : ℕ → ReadAwaiter → Result ℕ × ReadAwaiter
read_resume uv_eof a = elim (read_result uv_eof a.nread) [
  | unexpected e ↦ (unexpected e, a)
  | ok n ↦ (ok n, record a { handle = false; reading = false; nread = pos 0 })
]

-- `ConnectAwaiter`.
pub record ConnectAwaiter : Type 0 where
  pub handle : Bool
  pub status : ℤ

abbrev pub connect_start : ConnectAwaiter
connect_start = record { handle = false; status = pos 1 }

-- The callback of a failed connection returns before it comes to the handle.
unfoldable pub connect_callback : ℤ → ConnectAwaiter → ConnectAwaiter × Bool
connect_callback status a =
    (record a { status = status }, if is_zero status then a.handle else false)

unfoldable pub connect_ready : ConnectAwaiter → Bool
connect_ready a = at_most_zero a.status

unfoldable pub connect_suspend : ConnectAwaiter → ConnectAwaiter
connect_suspend a = record a { handle = true }

-- The stream is given whatever the status is.
unfoldable pub connect_resume :
    {Stream : Type 0} → Stream → ConnectAwaiter → Result Stream × ConnectAwaiter
connect_resume client a = (ok client, record a { handle = false })
