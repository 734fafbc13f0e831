-- ===== src/Codec/LengthDelimited/RoundTrip.antt =====
-- A message that `LengthDelimitedCodec` encodes is what it decodes.
use uvio.Prelude.{
  ℕ, ◌+◌, ◌*◌, ◌%◌, ◌^◌, ◌<◌, ◌≡◌, sym, ap, ◌∙◌, List, [], ◌++◌, append_assoc, length, arith,
}
use uvio.Common.Result.{ok, done}
use uvio.Io.Ports.{ByteReader, ByteWriter}
use uvio.Net.Endian.{ByteOrder, hton64}
use uvio.Net.Endian.Swap.{ntoh64-hton64}
use uvio.Codec.Bytes.{resize, length-resize, Reads, read_span_lem, write_span_lem}
use uvio.Codec.LengthDelimited.{decode_length, decode, encode_length, encode}
use uvio.Codec.LengthDelimited.Varint.{groups, encode_rounds_lem, decode_rounds_lem}

-- What the encoder writes for a message: its length in network order as groups, then the message.
abbrev pub frame : ByteOrder → List ℕ → List ℕ
frame order message = groups 9 (hton64 order (length message)) ++ message

-- `encode` of a message of less than 2 ^ 31 bytes succeeds, adds its frame to what was written, and
-- flushes: all of it has left the buffer.
pub encode_delimited :
    (order : ByteOrder) (W : ByteWriter) (message : List ℕ) (s : W.State)
    → length message < 2 ^ 31
    → W.IsReady s
    → (s' : W.State) × (encode order W message s ≡ done (ok tt, s'))
      × W.IsReady s'
      × (W.sent s' ≡ W.written s ++ frame order message)
      × (W.written s' ≡ W.sent s')
unfolding encode encode_length
encode_delimited order W message s fits h =
    let x = hton64 order (length message) in
    let x_fits = (ntoh64-hton64 order (length message) (omega arith)).1 in
    let e : length message % 2 ^ 64 ≡ length message = omega arith in
    let (s1, run1, h1, all1) = encode_rounds_lem order W 9 x s (omega arith) h in
    let (s2, run2, h2, all2) = write_span_lem W message s1 fits h1 in
    let (s3, run3, h3, kept, gone) = W.flush_law s2 h2 in
    (
      s3,
      rw (e, run1) (rw run2 (rw run3)),
      h3,
      gone ∙ all2 ∙ rw all1 (append_assoc (W.written s) (groups 9 x) message),
      kept ∙ sym gone,
    )

-- From a reader that has the frame of a message pending, `decode` succeeds whatever string it is
-- passed, gives that message, and leaves what follows the frame to be read.
pub decode_delimited :
    (order : ByteOrder) (R : ByteReader) (old message more : List ℕ) (s : R.State)
    → length message < 2 ^ 64
    → R.IsReady s
    → R.pending s ≡ frame order message ++ more
    → Reads R (decode order R old s) message more
unfolding decode decode_length
decode_delimited order R old message more s fits h e =
    let n = length message in
    let x = hton64 order n in
    let (back, x_fits) = ntoh64-hton64 order n fits in
    let whole : 0 + x * 2 ^ (0 * 7) ≡ x = omega arith in
    let (s1, run1, h1, p1) =
      decode_rounds_lem order R 9 10 0 0 x (message ++ more) s (omega arith) (omega arith)
        (omega arith) (omega arith) h (e ∙ append_assoc (groups 9 x) message more) in
    let (s2, run2, h2, p2) =
      read_span_lem R (resize n old) message more s1 h1 (sym (length-resize n old)) p1 in
    (s2, rw run1 (rw (whole, back) (rw run2)), h2, p2)

-- A message of less than 2 ^ 31 bytes that `encode` has written to a fresh writer is what `decode`
-- gives to a reader that receives those bytes, with whatever follows them left to be read.
pub decode-encode_delimited :
    (order : ByteOrder) (W : ByteWriter) (R : ByteReader) (old message more : List ℕ)
    (w w' : W.State) (r : R.State)
    → length message < 2 ^ 31
    → W.IsReady w
    → W.written w ≡ []
    → encode order W message w ≡ done (ok tt, w')
    → R.IsReady r
    → R.pending r ≡ W.sent w' ++ more
    → Reads R (decode order R old r) message more
decode-encode_delimited order W R old message more w w' r fits hw fresh enc hr e =
    let (w1, run, _, out, _) = encode_delimited order W message w fits hw in
    let same : w1 ≡ w' = cc (run, enc) in
    decode_delimited order R old message more r (omega arith) hr (
      e
      ∙ ap (λ t. W.sent t ++ more) (sym same)
      ∙ ap (λ t. t ++ more) (out ∙ ap (λ t. t ++ frame order message) fresh))
