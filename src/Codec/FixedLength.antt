-- ===== src/Codec/FixedLength.antt =====
-- uvio/codec/fixed_length.hpp: a message behind its length in four bytes.
pub mod RoundTrip
use uvio.Prelude.{ℕ, zero, suc, ◌+◌, ◌*◌, ◌/◌, ◌%◌, ◌^◌, List, [], ◌∷◌, length, bit_and, bit_or}
use uvio.Common.Coro.{Coro, co_return, ◌>>=◌, ◌>>◌}
use uvio.Io.Ports.{ByteReader, ByteWriter}
use uvio.Net.Endian.{ByteOrder, hton32, ntoh32}
use uvio.Codec.Bytes.{resize, read_span, read_byte, write_span}

abbrev pub fixed_length_bytes : ℕ
fixed_length_bytes = 4

module _ (order : ByteOrder) where
  module _ (R : ByteReader) where
    -- The rounds that are left, the loop's `i`, and `value`.
    unfoldable pub decode_rounds : ℕ → ℕ → ℕ → Coro R.State ℕ
    unfolding read_byte
    decode_rounds zero i value = co_return value
    decode_rounds (suc n) i value = do
      byte ← read_byte R
      decode_rounds n (i + 1) (bit_or value (bit_and byte 0xFF * 2 ^ (i * 8) % 2 ^ 32))

    unfoldable pub decode_length : Coro R.State ℕ
    unfolding decode_rounds ntoh32
    decode_length = do value ← decode_rounds fixed_length_bytes 0 0; co_return (ntoh32 order value)

    -- `decode`: from the string that is passed in to the message.
    unfoldable pub decode : List ℕ → Coro R.State (List ℕ)
    unfolding decode_length resize read_span
    decode message = do len ← decode_length; read_span R (resize len message)

  module _ (W : ByteWriter) where
    unfoldable pub encode_rounds : ℕ → ℕ → Coro W.State (Unit {0})
    unfolding write_span
    encode_rounds zero value = co_return tt
    encode_rounds (suc n) value = do
      write_span W (bit_or (bit_and value 0xFF) 0x00 ∷ [])
      encode_rounds n (value / 2 ^ 8)

    unfoldable pub encode_length : ℕ → Coro W.State (Unit {0})
    unfolding encode_rounds hton32
    encode_length value = encode_rounds fixed_length_bytes (hton32 order value)

    -- `uint32_t length = message.size()` keeps the low 32 bits.
    unfoldable pub encode : List ℕ → Coro W.State (Unit {0})
    unfolding encode_length write_span
    encode message = do encode_length (length message % 2 ^ 32); write_span W message; W.flush
