-- ===== src/Io/BufWriter.antt =====
-- uvio/io/impl/buf_writer.hpp and uvio/io/writer.hpp: writes through a `StreamBuffer`.
-- `write` keeps the wrap-around of the size that the code casts to `int`.
pub mod Order
use uvio.Prelude.{
  ℕ, zero, suc, ◌+◌, ◌-◌, ◌%◌, ◌^◌, Bool, true, false, List, [], ◌∷◌, ltb, leb, ◌==◌, if◌then◌else◌,
  length,
}
use uvio.Common.Result.{Result, ok, unexpected, Run, done, hang, fault, ◌>>=◌}
use uvio.Io.Buffer.{
  StreamBuffer, make, r_remaining, r_slice, w_remaining, reset_data, reset_pos, r_increase,
  read_from,
}
use uvio.Io.Sink.{Sink}

-- `room >= static_cast<int>(size)` on 32 bits: from 2 ^ 31 on the cast gives a negative number.
unfoldable pub fits_in : ℕ → ℕ → Bool
fits_in size room = let low = size % 2 ^ 32 in if ltb low (2 ^ 31) then leb low room else true

module _ (K : Sink) where
  open K use {Io}

  -- `class BufWriter`.
  pub record BufWriter : Type 0 where
    pub io : Io
    pub w_stream : StreamBuffer

  unfoldable pub make_writer : Io → ℕ → BufWriter
  make_writer io size = record { io = io; w_stream = make size }

  -- The write of `buf` past the buffer, `written` bytes being counted already.
  unfoldable pub write_through : ℕ → List ℕ → BufWriter → Run (Result ℕ × BufWriter)
  write_through written buf w =
      let (ret, io') = K.write buf w.io in
      let w' : BufWriter = record w { io = io' } in
      elim ret [
        | unexpected e ↦ done (unexpected e, w')
        | ok n ↦ done (ok (written + length buf), w')
      ]

  -- The write of the buffered bytes, which then leave the buffer.
  unfoldable pub spill : BufWriter → Run (Result ℕ × BufWriter)
  spill w =
      let (ret, io') = K.write (r_slice w.w_stream) w.io in
      elim ret [
        | unexpected e ↦ done (unexpected e, record w { io = io' })
        | ok n ↦ r_increase (r_remaining w.w_stream) w.w_stream >>= λ b.
            done (ok (r_remaining w.w_stream), record { io = io'; w_stream = b })
      ]

  -- `ImplBufWrite::write`.
  unfoldable pub write : List ℕ → BufWriter → Run (Result ℕ × BufWriter)
  unfolding write_through spill fits_in
  write buf w =
      if fits_in (length buf) (w_remaining w.w_stream)
      then (read_from buf w.w_stream >>= λ (n, b). done (ok n, record w { w_stream = b }))
      else if ltb 0 (r_remaining w.w_stream)
      then (spill w >>= λ (ret, w'). elim ret [
        | unexpected e ↦ done (unexpected e, w')
        | ok written ↦ write_through written buf (record w' { w_stream = reset_data w'.w_stream })
      ])
      else write_through 0 buf w

  -- `ImplBufWrite::flush`.
  unfoldable pub flush : ℕ → BufWriter → Run (Result (Unit {0}) × BufWriter)
  unfolding spill reset_pos
  flush zero w = hang
  flush (suc fuel) w =
      let round : Run (Result (Unit {0}) × BufWriter) = spill w >>= λ (ret, w'). elim ret [
        | unexpected e ↦ done (unexpected e, w')
        | ok n ↦ flush fuel w'
      ] in
      if length (r_slice w.w_stream) == 0
      then done (ok tt, record w { w_stream = reset_pos w.w_stream })
      else round

  -- `ImplBufWrite::write_all`.
  unfoldable pub write_all : ℕ → List ℕ → BufWriter → Run (Result (Unit {0}) × BufWriter)
  unfolding write flush
  write_all fuel buf w = write buf w >>= λ (ret, w'). elim ret [
    | unexpected e ↦ done (unexpected e, w')
    | ok n ↦ flush fuel w'
  ]
