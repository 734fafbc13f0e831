-- ===== src/Codec/LengthDelimited.antt =====
-- uvio/codec/length_delimited.hpp: a message behind its length in groups of seven bits.
pub mod Varint
pub mod RoundTrip
use uvio.Prelude.{
  ℕ, zero, suc, ◌+◌, ◌*◌, ◌/◌, ◌%◌, ◌^◌, List, [], ◌∷◌, length, bit_and, bit_or, ◌==◌,
  if◌then◌else◌, not,
}
use uvio.Common.Result.{uvio_error, unclassified, Run, hang, ◌>>=◌ as run_bind}
use uvio.Common.Coro.{Coro, co_return, co_fail, ◌>>=◌, ◌>>◌, on_result}
use uvio.Io.Ports.{ByteReader, ByteWriter}
use uvio.Net.Endian.{ByteOrder, hton64, ntoh64}
use uvio.Codec.Bytes.{resize, read_span, read_byte, write_span}

abbrev pub max_varint_bytes : ℕ
max_varint_bytes = 10

module _ (order : ByteOrder) where
  module _ (R : ByteReader) where
    -- The rounds that are left, the loop's `i`, and `value`.
    unfoldable pub decode_rounds : ℕ → ℕ → ℕ → Coro R.State ℕ
    unfolding read_byte ntoh64
    decode_rounds zero i value = co_fail (uvio_error unclassified)
    decode_rounds (suc n) i value = do
      byte ← read_byte R
      let value' = bit_or value (bit_and byte 0x7F * 2 ^ (i * 7) % 2 ^ 64)
      let rest = decode_rounds n (i + 1) value'
      if bit_and byte 0x80 == 0 then co_return (ntoh64 order value') else rest

    unfoldable pub decode_length : Coro R.State ℕ
    unfolding decode_rounds
    decode_length = decode_rounds max_varint_bytes 0 0

    -- `decode`: from the string that is passed in to the message.
    unfoldable pub decode : List ℕ → Coro R.State (List ℕ)
    unfolding decode_length resize read_span
    decode message = do len ← decode_length; read_span R (resize len message)

  module _ (W : ByteWriter) where
    -- The `do ... while (value != 0)`, with the rounds that it may take.
    unfoldable pub encode_rounds : ℕ → ℕ → Coro W.State (Unit {0})
    unfolding write_span
    encode_rounds zero value = λ s. hang
    encode_rounds (suc n) value = do
      write_span W (bit_or (bit_and value 0x7F) (if value / 2 ^ 7 == 0 then 0x00 else 0x80) ∷ [])
      let rest = encode_rounds n (value / 2 ^ 7)
      if not (value / 2 ^ 7 == 0) then rest else co_return tt

    -- Ten rounds are enough for 64 bits.
    unfoldable pub encode_length : ℕ → Coro W.State (Unit {0})
    unfolding encode_rounds hton64
    encode_length value = encode_rounds 10 (hton64 order value)

    unfoldable pub encode : List ℕ → Coro W.State (Unit {0})
    unfolding encode_length write_span
    encode message = do encode_length (length message % 2 ^ 64); write_span W message; W.flush
