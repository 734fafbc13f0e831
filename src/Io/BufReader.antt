-- ===== src/Io/BufReader.antt =====
-- uvio/io/impl/buf_reader.hpp and uvio/io/reader.hpp: reads through a `StreamBuffer`.
-- Buffers have less than 2 ^ 31 bytes. The sizes of spans are compared with the capacity as they are,
-- and cast to `int` only if they fit the buffer.
pub mod Exact
pub mod Loss
pub mod Text
use uvio.Prelude.{
  ℕ, zero, suc, ◌+◌, ◌-◌, Bool, true, false, not, ◌||◌, List, [], ◌∷◌, ◌++◌, ltb, leb, ◌==◌,
  if◌then◌else◌, length, take, drop, overwrite,
}
use uvio.Common.Result.{Result, ok, unexpected, Run, done, hang, fault, ◌>>=◌}
use uvio.Io.Buffer.{
  StreamBuffer, make, r_remaining, w_remaining, empty, capacity, reset_data, r_increase, w_increase,
  write_to, fill, find_flag_and_return_slice,
}
use uvio.Io.Source.{Source}
use uvio.Net.TcpStream

-- The call of `reset_data` in front of a read, if the free space is less than `n` bytes.
unfoldable pub make_room : ℕ → StreamBuffer → StreamBuffer
make_room n b = if ltb (w_remaining b) n then reset_data b else b

-- `r_stream_.w_increase` after a read of `xs` into `w_slice()`.
abbrev pub receive : List ℕ → StreamBuffer → Run StreamBuffer
receive xs b = w_increase (length xs) (fill xs b)

module _ (S : Source) where
  open S use {Io}

  -- `class BufReader`.
  pub record BufReader : Type 0 where
    pub io : Io
    pub r_stream : StreamBuffer

  unfoldable pub make_reader : Io → ℕ → BufReader
  make_reader io size = record { io = io; r_stream = make size }

  -- `co_return r_stream_.write_to(buf)`.
  abbrev pub serve : Io → List ℕ → StreamBuffer → Run (Result ℕ × List ℕ × BufReader)
  serve io buf b = do
    (len, dst, b') ← write_to buf b
    done (ok len, dst, record { io = io; r_stream = b' })

  -- The `while (true)` of `read`.
  unfoldable pub read_loop : ℕ → List ℕ → BufReader → Run (Result ℕ × List ℕ × BufReader)
  unfolding make_room
  read_loop zero buf r = hang
  read_loop (suc fuel) buf r =
      let b = make_room (length buf) r.r_stream in
      let (ret, io') = S.read (w_remaining b) r.io in
      elim ret [
        | unexpected e ↦ done (unexpected e, buf, record { io = io'; r_stream = b })
        | ok xs ↦ receive xs b >>= λ b'.
            let again = read_loop fuel buf (record { io = io'; r_stream = b' }) in
            if not (empty b') || length xs == 0 then serve io' buf b' else again
      ]

  -- A span that is larger than the buffer: what is buffered, then a read straight into the span.
  unfoldable pub read_direct : List ℕ → BufReader → Run (Result ℕ × List ℕ × BufReader)
  read_direct buf r = do
    (len, dst, b) ← write_to buf r.r_stream
    let (ret, io') = S.read (length (drop len dst)) r.io
    let r' : BufReader = record { io = io'; r_stream = b }
    elim ret [
      | unexpected e ↦ done (unexpected e, dst, r')
      | ok xs ↦ done (ok (length xs + len), overwrite len xs dst, r')
    ]

  -- `ImplBufRead::read`: the count, what the span holds, and the reader.
  unfoldable pub read : ℕ → List ℕ → BufReader → Run (Result ℕ × List ℕ × BufReader)
  unfolding read_direct read_loop
  read fuel buf r =
      if ltb (capacity r.r_stream) (length buf)
      then read_direct buf r
      else if not (empty r.r_stream)
      then serve r.io buf r.r_stream
      else read_loop fuel buf r

  -- `r_stream_.write_to(buf); co_return {};`
  abbrev pub serve_exact : Io → List ℕ → StreamBuffer → Run (Result (Unit {0}) × List ℕ × BufReader)
  serve_exact io buf b = do
    (len, dst, b') ← write_to buf b
    done (ok tt, dst, record { io = io; r_stream = b' })

  -- The `while (true)` of `read_exact`.
  unfoldable pub exact_loop : ℕ → List ℕ → BufReader → Run (Result (Unit {0}) × List ℕ × BufReader)
  unfolding make_room
  exact_loop zero buf r = hang
  exact_loop (suc fuel) buf r =
      let b = make_room (length buf) r.r_stream in
      let (ret, io') = S.read (w_remaining b) r.io in
      elim ret [
        | unexpected e ↦ done (unexpected e, buf, record { io = io'; r_stream = b })
        | ok xs ↦ receive xs b >>= λ b'.
            let again = exact_loop fuel buf (record { io = io'; r_stream = b' }) in
            if leb (length buf) (r_remaining b') then serve_exact io' buf b' else again
      ]

  -- A span that is larger than the buffer: what is buffered, then `io_.read_exact` for the rest.
  unfoldable pub exact_direct :
      ℕ → List ℕ → BufReader → Run (Result (Unit {0}) × List ℕ × BufReader)
  unfolding TcpStream.read_exact
  exact_direct fuel buf r = do
    (len, dst, b) ← write_to buf r.r_stream
    (ret, tail, io') ← TcpStream.read_exact S fuel (drop len dst) r.io
    done (ret, take len dst ++ tail, record { io = io'; r_stream = b })

  -- `ImplBufRead::read_exact`.
  unfoldable pub read_exact : ℕ → List ℕ → BufReader → Run (Result (Unit {0}) × List ℕ × BufReader)
  unfolding exact_direct exact_loop
  read_exact fuel buf r =
      if ltb (capacity r.r_stream) (length buf)
      then exact_direct fuel buf r
      else if leb (length buf) (r_remaining r.r_stream)
      then serve_exact r.io buf r.r_stream
      else exact_loop fuel buf r

  -- `ImplBufRead::read_until`: the size of the string, the string, and the reader.
  unfoldable pub read_until : ℕ → List ℕ → List ℕ → BufReader → Run (Result ℕ × List ℕ × BufReader)
  unfolding find_flag_and_return_slice
  read_until zero buf end_flag r = hang
  read_until (suc fuel) buf end_flag r = find_flag_and_return_slice end_flag r.r_stream >>= λ slice.
      let (ret, io') = S.read (w_remaining r.r_stream) r.io in
      let more : Run (Result ℕ × List ℕ × BufReader) = elim ret [
        | unexpected e ↦ done (unexpected e, buf, record r { io = io' })
        | ok xs ↦ receive xs r.r_stream >>= λ b'.
            read_until fuel buf end_flag (record { io = io'; r_stream = b' })
      ] in
      let found : Run (Result ℕ × List ℕ × BufReader) = (do
        b' ← r_increase (length slice) r.r_stream
        done (ok (length (buf ++ slice)), buf ++ slice, record r { r_stream = b' })) in
      if length slice == 0 then more else found

  -- `ImplBufRead::read_line`.
  unfoldable pub read_line : ℕ → List ℕ → BufReader → Run (Result ℕ × List ℕ × BufReader)
  unfolding read_until
  read_line fuel buf r = read_until fuel buf (0x0a ∷ []) r
