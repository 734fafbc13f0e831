-- ===== src/Tests/Websocket.antt =====
-- The websocket codec at concrete frames, over a buffered reader and writer of three bytes.
use uvio.Prelude.{ℕ, ◌≡◌, refl, sym, ap, true, false, List, [], ◌∷◌, ◌++◌, inl, arith}
use uvio.Common.Result.{ok, done}
use uvio.Io.BufWriter.{BufWriter}
use uvio.Io.BufWriter.Order.{IsReady}
use uvio.Net.Endian.{little_endian}
use uvio.Codec.Bytes.{Reads}
use uvio.Codec.Mask.{apply_mask, mask_rest, apply_mask_lem}
use uvio.Codec.Websocket.{decode_length, decode, header, encode}
use uvio.Codec.Websocket.Length.{decode_medium}
use uvio.Codec.Websocket.RoundTrip.{text_frame, encode_frame, decode-encode_frame}
use uvio.Io.Ports.Ends.{Ends}
use uvio.Net.Websocket.Programs.{echo_rounds}
use uvio.Net.Websocket.Rounds.{frames, echo_rounds_lem}
use uvio.Tests.Streams.{log, reader, writer}
use uvio.Tests.Codec.{fresh_writer, fresh_writer-IsReady, reader_of}

abbrev five : List ℕ
five = 1 ∷ 2 ∷ 3 ∷ 4 ∷ 5 ∷ []

abbrev key : List ℕ
key = 0x10 ∷ 0x20 ∷ 0x30 ∷ 0x40 ∷ []

masked_five : apply_mask five key ≡ 0x11 ∷ 0x22 ∷ 0x33 ∷ 0x44 ∷ 0x15 ∷ []
unfolding apply_mask
masked_five = refl

apply_mask_lem_example : apply_mask five key ≡ mask_rest 0 key five
apply_mask_lem_example = apply_mask_lem five key (omega arith)

abbrev hi : List ℕ
hi = 0x68 ∷ 0x69 ∷ []

abbrev client_bytes : List ℕ
client_bytes = 0x81 ∷ 0x82 ∷ 1 ∷ 1 ∷ 1 ∷ 1 ∷ 0x69 ∷ 0x68 ∷ []

wrote_frame :
    (w' : BufWriter log) × (encode little_endian writer true (text_frame hi) fresh_writer
      ≡ done (ok (0x69 ∷ 0x68 ∷ []), w'))
    × IsReady log w'
    × (w'.io ≡ client_bytes)
    × ((writer).written w' ≡ (writer).sent w')
unfolding header apply_mask
wrote_frame =
    encode_frame writer true (text_frame hi) fresh_writer (omega arith) fresh_writer-IsReady

decode-encode_frame_example :
    Reads reader
      (decode little_endian reader false (7 ∷ []) (reader_of (client_bytes ++ (9 ∷ []))))
      hi
      (9 ∷ [])
decode-encode_frame_example =
    decode-encode_frame writer reader true (7 ∷ []) hi (9 ∷ []) (0x69 ∷ 0x68 ∷ []) fresh_writer
      (wrote_frame.0) (reader_of (client_bytes ++ (9 ∷ []))) (inl (omega arith))
      fresh_writer-IsReady refl (wrote_frame.1) (omega arith, tt)
      (sym (ap (λ t. t ++ (9 ∷ [])) (wrote_frame.3)))

-- A frame of 32768 bytes, whose length is read as 33023.
decode_medium_example :
    Reads reader
      (decode_length little_endian reader (0x81 ∷ 126 ∷ []) (reader_of (0x80 ∷ 0x00 ∷ [])))
      33023
      []
decode_medium_example =
    decode_medium reader 0x81 32768 false [] (reader_of (0x80 ∷ 0x00 ∷ [])) (omega arith)
      (omega arith, tt) refl

-- The server over a connection from which each read gives one byte: it returns "hi", and closes.
echo_rounds_lem_example :
    Ends reader writer
      (echo_rounds little_endian reader writer 1
        (reader_of (frames writer true (hi ∷ []) ++ (9 ∷ [])))
        fresh_writer)
      (9 ∷ [])
      (0x81 ∷ 2 ∷ 0x68 ∷ 0x69 ∷ 0x88 ∷ 0 ∷ [])
unfolding header
echo_rounds_lem_example =
    echo_rounds_lem reader writer writer (hi ∷ []) (9 ∷ [])
      (reader_of (frames writer true (hi ∷ []) ++ (9 ∷ []))) fresh_writer (inl (omega arith), tt)
      (omega arith, tt) refl fresh_writer-IsReady refl
