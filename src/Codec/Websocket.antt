-- ===== src/Codec/Websocket.antt =====
-- uvio/codec/websocket.hpp and uvio/net/websocket/websocket_protocol.hpp: a frame of the websocket
-- protocol, its length in one of three forms. `char` is signed, as it is on the machines that the
-- program is built for; assertions are on, as in a build without NDEBUG.
pub mod Length
pub mod RoundTrip
use uvio.Prelude.{
  ℕ, ◌+◌, ◌-◌, ◌*◌, ◌/◌, ◌%◌, ◌^◌, Bool, true, false, List, [], ◌∷◌, length, get_or, take, ltb,
  ◌==◌, not, if◌then◌else◌, bit_and, bit_or,
}
use uvio.Common.Result.{Run, done, assert, ◌>>=◌ as run_bind}
use uvio.Common.Coro.{Coro, co_return, ◌>>=◌, ◌>>◌, on_result}
use uvio.Io.Ports.{ByteReader, ByteWriter}
use uvio.Net.Endian.{ByteOrder, hton16, hton64, ntoh16, ntoh64}
use uvio.Codec.Bytes.{resize, read_into, write_from, flush_all}
use uvio.Codec.Mask.{apply_mask}

-- `enum class Opcode`.
pub data Opcode : Type 0 where
  conf text binary close ping pong : Opcode

unfoldable pub opcode_byte : Opcode → ℕ
opcode_byte conf = 0x00
opcode_byte text = 0x01
opcode_byte binary = 0x02
opcode_byte close = 0x08
opcode_byte ping = 0x09
opcode_byte pong = 0x0A

-- `struct WebsocketFrame`.
pub record WebsocketFrame : Type 0 where
  pub opcode : Opcode
  pub message : List ℕ

-- A `char` promoted and converted to 64 bits, by its byte.
unfoldable pub sign_extend : ℕ → ℕ
sign_extend x = if ltb x 0x80 then x else x + (2 ^ 64 - 2 ^ 8)

-- `ASSERT` inside a coroutine.
abbrev pub co_assert : {S : Type 0} → Bool → Coro S (Unit {0})
co_assert b s = run_bind (assert b) λ u. co_return tt s

module _ (order : ByteOrder) where
  module _ (R : ByteReader) where
    -- The length, from the two bytes in `buf`.
    unfoldable pub decode_length : List ℕ → Coro R.State ℕ
    unfolding read_into sign_extend ntoh16 ntoh64
    decode_length buf =
        let length = bit_and (get_or buf 1 0) 0x7F in
        let short = (do
          buf ← read_into R buf
          let length =
              bit_or (sign_extend (get_or buf 1 0) * 2 ^ 8 % 2 ^ 64) (sign_extend (get_or buf 0 0))
          co_return (ntoh16 order (length % 2 ^ 16))) in
        let long = (do
          buf8 ← read_into R (0 ∷ 0 ∷ 0 ∷ 0 ∷ 0 ∷ 0 ∷ 0 ∷ 0 ∷ [])
          let length =
              bit_or
                (bit_or
                  (bit_or
                    (bit_or
                      (bit_or
                        (bit_or (bit_or (get_or buf8 0 0) (get_or buf8 1 0 * 2 ^ 8))
                          (get_or buf8 2 0 * 2 ^ 16))
                        (get_or buf8 3 0 * 2 ^ 24))
                      (get_or buf8 4 0 * 2 ^ 32))
                    (get_or buf8 5 0 * 2 ^ 40))
                  (get_or buf8 6 0 * 2 ^ 48))
                (get_or buf8 7 0 * 2 ^ 56)
          co_return (ntoh64 order length)) in
        if length == 126 then short else if length == 127 then long else co_return length

    -- `decode`: from the payload that is passed in to the message.
    unfoldable pub decode : Bool → List ℕ → Coro R.State (List ℕ)
    unfolding decode_length resize apply_mask
    decode client_side payload = do
      buf ← read_into R (0 ∷ 0 ∷ [])
      let fin = not (bit_and (sign_extend (get_or buf 0 0)) 0x100 == 0)
      let opcode = bit_and (get_or buf 0 0) 0x0F
      co_assert fin
      co_assert (opcode == opcode_byte text)
      length ← decode_length buf
      mask_bits ←
          if client_side then co_return (0 ∷ 0 ∷ 0 ∷ 0 ∷ []) else read_into R (0 ∷ 0 ∷ 0 ∷ 0 ∷ [])
      payload ← read_into R (resize length payload)
      co_return (if client_side then payload else apply_mask payload mask_bits)

  module _ (W : ByteWriter) where
    -- The first bytes of a frame, by its length.
    unfoldable pub header : Bool → WebsocketFrame → List ℕ
    unfolding hton16 hton64 opcode_byte
    header client_side frame =
        let fin = bit_or 0x80 (opcode_byte frame.opcode) in
        let masked = if client_side then 0x80 else 0 in
        let n = length frame.message in
        let short = hton16 order n in
        let long = hton64 order n in
        if ltb n 126
        then fin ∷ bit_or masked n ∷ []
        else if ltb n 65536
        then fin
          ∷ bit_or masked 126
          ∷ bit_and (short / 2 ^ 0) 0xFF
          ∷ bit_and (short / 2 ^ 8) 0xFF
          ∷ []
        else fin
          ∷ bit_or masked 127
          ∷ bit_and (long / 2 ^ 0) 0xFF
          ∷ bit_and (long / 2 ^ 8) 0xFF
          ∷ bit_and (long / 2 ^ 16) 0xFF
          ∷ bit_and (long / 2 ^ 24) 0xFF
          ∷ bit_and (long / 2 ^ 32) 0xFF
          ∷ bit_and (long / 2 ^ 40) 0xFF
          ∷ bit_and (long / 2 ^ 48) 0xFF
          ∷ bit_and (long / 2 ^ 56) 0xFF
          ∷ []

    -- `encode`: to what the caller's message holds afterwards, which is masked in place.
    unfoldable pub encode : Bool → WebsocketFrame → Coro W.State (List ℕ)
    unfolding header write_from flush_all apply_mask
    encode client_side frame =
        let mask = 1 ∷ 1 ∷ 1 ∷ 1 ∷ [] in
        let masked = apply_mask frame.message mask in
        let client = (do write_from W mask; write_from W masked; flush_all W; co_return masked) in
        let server = (do write_from W frame.message; flush_all W; co_return frame.message) in
        do write_from W (header client_side frame); if client_side then client else server
