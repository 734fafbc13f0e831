-- ===== src/Net/Websocket/Rounds.antt =====
-- The rounds of examples/websocket_server.cpp: the server returns the messages of a client.
use uvio.Prelude.{
  ℕ, ◌^◌, ◌<◌, ◌≡◌, refl, ap, ◌∙◌, Bool, true, false, List, [], ◌∷◌, ◌++◌, append_assoc, length,
  All, arith,
}
use uvio.Common.Result.{ok, done}
use uvio.Io.Ports.{ByteReader, ByteWriter}
use uvio.Io.Ports.Ends.{Ends, one_more}
use uvio.Codec.Websocket.{close, WebsocketFrame, header, encode}
use uvio.Codec.Websocket.RoundTrip.{
  body, after, Readable, Readable-lt, text_frame, encode_frame, decode_frame,
}
use uvio.Net.Endian.{little_endian}
use uvio.Net.Websocket.{recv, send, close_connection}
use uvio.Net.Websocket.Programs.{echo_rounds}

-- The bytes of one frame, of the frames of some messages, and of the frame that closes.
abbrev pub frame_text : ByteWriter → Bool → WebsocketFrame → List ℕ
frame_text W side frame = header little_endian W side frame ++ body side frame.message

abbrev pub frames : ByteWriter → Bool → List (List ℕ) → List ℕ
frames W side [] = []
frames W side (message ∷ messages) =
    frame_text W side (text_frame message) ++ frames W side messages

abbrev pub close_text : ByteWriter → Bool → List ℕ
close_text W side = frame_text W side (record { opcode = close; message = [] })

-- A frame that is sent behind what has been sent.
send_lem :
    (W : ByteWriter) (side : Bool) (frame : WebsocketFrame) (w : W.State)
    → length frame.message < 2 ^ 31
    → W.IsReady w
    → W.written w ≡ W.sent w
    → (w' : W.State) × (encode little_endian W side frame w
        ≡ done (ok (after side frame.message), w'))
      × W.IsReady w'
      × (W.sent w' ≡ W.sent w ++ frame_text W side frame)
      × (W.written w' ≡ W.sent w')
send_lem W side frame w small h flushed =
    let (w', run, h', out, flushed') = encode_frame W side frame w small h in
    (
      w',
      run,
      h',
      out
          ∙ append_assoc (W.written w) (header little_endian W side frame) (body side frame.message)
          ∙ ap (λ t. t ++ frame_text W side frame) flushed,
      flushed',
    )

module _ (R : ByteReader) (W : ByteWriter) where
  -- From a ready reader that has the frames of a client's messages pending, each of a length that comes
  -- through, and with a ready writer that holds nothing back: in one round for each message the
  -- server ends without a fault, has sent a frame with each message in their order and then the
  -- frame that closes, and leaves what follows the messages to be read.
  pub echo_rounds_lem :
      (C : ByteWriter) (messages : List (List ℕ)) (more : List ℕ) (r : R.State) (w : W.State)
      → All (λ message. Readable (length message)) messages
      → R.IsReady r
      → R.pending r ≡ frames C true messages ++ more
      → W.IsReady w
      → W.written w ≡ W.sent w
      → Ends R W
          (echo_rounds little_endian R W (length messages) r w)
          more
          (W.sent w ++ (frames W false messages ++ close_text W false))
  unfolding echo_rounds recv send close_connection
  echo_rounds_lem C [] more r w fits hr e hw flushed =
      let (w', run, _, out, _) =
        send_lem W false (record { opcode = close; message = [] }) w (omega arith) hw flushed in
      record { reader = r; writer = w'; ends = rw run refl; left = e; sent = out }
  echo_rounds_lem C (message ∷ messages) more r w (fit, fits) hr e hw flushed =
      let frame = text_frame message in
      let (r1, run, h, p) =
        decode_frame C R true [] message (frames C true messages ++ more) r fit hr
          (e ∙ append_assoc (frame_text C true frame) (frames C true messages) more) in
      let (w1, run', k, out, flushed') =
        send_lem W false frame w (Readable-lt (length message) fit) hw flushed in
      let rest = echo_rounds_lem C messages more r1 w1 fits h p k flushed' in
      record {
        reader = rest.reader;
        writer = rest.writer;
        ends = rw run (rw run' rest.ends);
        left = rest.left;
        sent =
            rest.sent
            ∙ one_more (W.sent w) (W.sent w1) (frame_text W false frame) (frames W false messages)
                (close_text W false) out;
      }
