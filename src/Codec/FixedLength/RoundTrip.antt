-- ===== src/Codec/FixedLength/RoundTrip.antt =====
-- A message that `FixedLength32Codec` encodes is what it decodes.
use uvio.Prelude.{
  ℕ, zero, suc, ◌+◌, ◌*◌, ◌/◌, ◌%◌, ◌^◌, ◌<◌, ◌≡◌, refl, sym, ap, ◌∙◌, List, [], ◌∷◌, ◌++◌,
  append-nil, append_assoc, length, bit_and, bit_or, arith,
}
use uvio.Prelude.Bits.{bit_and_mask, bit_or_shifted}
use uvio.Common.Result.{ok, done}
use uvio.Io.Ports.{ByteReader, ByteWriter}
use uvio.Net.Endian.{ByteOrder, hton32}
use uvio.Net.Endian.Swap.{word32, ntoh32-hton32}
use uvio.Codec.Bytes.{
  resize, length-resize, Reads, read_span_lem, read_byte_lem, write_span, Writes, write_span_lem,
  Writes-seq,
}
use uvio.Codec.FixedLength.{
  decode_rounds, decode_length, decode, encode_rounds, encode_length, encode,
}

-- The `n` lowest bytes of a number, the lowest first.
abbrev pub low_bytes : ℕ → ℕ → List ℕ
low_bytes zero v = []
low_bytes (suc n) v = v % 256 ∷ low_bytes n (v / 2 ^ 8)

-- What the encoder writes for a message: the length in network order, then the message.
abbrev pub frame : ByteOrder → List ℕ → List ℕ
frame order message = low_bytes 4 (hton32 order (length message)) ++ message

low_byte : (v : ℕ) → bit_or (bit_and v 0xFF) 0x00 ≡ v % 256
low_byte v = rw (bit_and_mask 8 v) (bit_or_shifted 8 (v % 256) 0 (omega arith) ∙ omega arith)

-- One more byte joined to `value`.
join_byte :
    (k value b : ℕ)
    → value < 2 ^ k
    → b < 256
    → b * 2 ^ k < 2 ^ 32
    → bit_or value (bit_and b 0xFF * 2 ^ k % 2 ^ 32) ≡ value + b * 2 ^ k
join_byte k value b h hb fits =
    let e : b * 2 ^ k % 2 ^ 32 ≡ b * 2 ^ k = omega arith in
    let e' : b % 256 ≡ b = omega arith in rw (bit_and_mask 8 b, e', e) (bit_or_shifted k value b h)

module _ (order : ByteOrder) (W : ByteWriter) where
  encode_rounds_lem :
      (n v : ℕ) (s : W.State) → W.IsReady s → Writes W (encode_rounds order W n v) (low_bytes n v) s
  unfolding encode_rounds
  encode_rounds_lem zero v s h = (s, refl, h, sym (append-nil (W.written s)))
  encode_rounds_lem (suc n) v s h =
      Writes-seq W (write_span W (bit_or (bit_and v 0xFF) 0x00 ∷ []))
        (encode_rounds order W n (v / 2 ^ 8)) (v % 256 ∷ []) (low_bytes n (v / 2 ^ 8)) s
        (rw (low_byte v) (write_span_lem W (v % 256 ∷ []) s (omega arith) h))
        (λ s' h'. encode_rounds_lem n (v / 2 ^ 8) s' h')

  -- `encode` of a message of less than 2 GiB succeeds, adds its frame to what was written, and
  -- flushes: all of it has left the buffer.
  pub encode_fixed :
      (message : List ℕ) (s : W.State)
      → length message < 2 ^ 31
      → W.IsReady s
      → (s' : W.State) × (encode order W message s ≡ done (ok tt, s'))
        × W.IsReady s'
        × (W.sent s' ≡ W.written s ++ frame order message)
  unfolding encode encode_length
  encode_fixed message s fits h =
      let e : length message % 2 ^ 32 ≡ length message = omega arith in
      let (s1, run1, h1, all1) = encode_rounds_lem 4 (hton32 order (length message)) s h in
      let (s2, run2, h2, all2) = write_span_lem W message s1 fits h1 in
      let (s3, run3, h3, _, gone) = W.flush_law s2 h2 in
      (
        s3,
        rw (e, run1) (rw run2 (rw run3)),
        h3,
        gone ∙ all2 ∙ rw all1 (append_assoc (W.written s) _ message),
      )

module _ (order : ByteOrder) (R : ByteReader) where
  decode_rounds_lem :
      (a b c d : ℕ) (more : List ℕ) (s : R.State)
      → a < 256
      → b < 256
      → c < 256
      → d < 256
      → R.IsReady s
      → R.pending s ≡ a ∷ b ∷ c ∷ d ∷ more
      → Reads R (decode_rounds order R 4 0 0 s) (word32 a b c d) more
  unfolding decode_rounds
  decode_rounds_lem a b c d more s ha hb hc hd h e =
      let (s1, run1, h1, p1) = read_byte_lem R a (b ∷ c ∷ d ∷ more) s h e in
      let (s2, run2, h2, p2) = read_byte_lem R b (c ∷ d ∷ more) s1 h1 p1 in
      let (s3, run3, h3, p3) = read_byte_lem R c (d ∷ more) s2 h2 p2 in
      let (s4, run4, h4, p4) = read_byte_lem R d more s3 h3 p3 in
      let j0 = join_byte 0 0 a (omega arith) ha (omega arith) in
      let j1 = join_byte 8 (0 + a * 2 ^ 0) b (omega arith) hb (omega arith) in
      let j2 = join_byte 16 (0 + a * 2 ^ 0 + b * 2 ^ 8) c (omega arith) hc (omega arith) in
      let j3 =
        join_byte 24 (0 + a * 2 ^ 0 + b * 2 ^ 8 + c * 2 ^ 16) d (omega arith) hd (omega arith) in
      let total : 0 + a * 2 ^ 0 + b * 2 ^ 8 + c * 2 ^ 16 + d * 2 ^ 24 ≡ word32 a b c d =
        omega arith in
      (s4, rw run1 (rw run2 (rw run3 (rw run4 (rw (j0, j1, j2, j3, total))))), h4, p4)

  decode_length_lem :
      (v : ℕ) (more : List ℕ) (s : R.State)
      → v < 2 ^ 32
      → R.IsReady s
      → R.pending s ≡ low_bytes 4 (hton32 order v) ++ more
      → Reads R (decode_length order R s) v more
  unfolding decode_length
  decode_length_lem v more s fits h e =
      let x = hton32 order v in
      let (back, x_fits) = ntoh32-hton32 order v fits in
      let whole : word32 (x % 256) (x / 2 ^ 8 % 256) (x / 2 ^ 8 / 2 ^ 8 % 256)
            (x / 2 ^ 8 / 2 ^ 8 / 2 ^ 8 % 256)
          ≡ x =
        omega arith in
      let (s', run, h', p) =
        decode_rounds_lem (x % 256) (x / 2 ^ 8 % 256) (x / 2 ^ 8 / 2 ^ 8 % 256)
          (x / 2 ^ 8 / 2 ^ 8 / 2 ^ 8 % 256) more s (omega arith) (omega arith) (omega arith)
          (omega arith) h e in
      (s', rw run (rw (whole, back)), h', p)

  -- From a reader that has the frame of a message pending, `decode` succeeds whatever string it is
  -- passed, gives that message, and leaves what follows the frame to be read.
  pub decode_fixed :
      (old message more : List ℕ) (s : R.State)
      → length message < 2 ^ 32
      → R.IsReady s
      → R.pending s ≡ frame order message ++ more
      → Reads R (decode order R old s) message more
  unfolding decode
  decode_fixed old message more s fits h e =
      let n = length message in
      let (s1, run1, h1, p1) =
        decode_length_lem n (message ++ more) s fits h
          (e ∙ append_assoc (low_bytes 4 (hton32 order n)) message more) in
      let (s2, run2, h2, p2) =
        read_span_lem R (resize n old) message more s1 h1 (sym (length-resize n old)) p1 in
      (s2, rw run1 (rw run2), h2, p2)

-- A message of less than 2 GiB that `encode` has written to a fresh writer is what `decode` gives to
-- a reader that receives those bytes, with whatever follows them left to be read.
pub decode-encode_fixed :
    (order : ByteOrder) (W : ByteWriter) (R : ByteReader) (old message more : List ℕ)
    (w w' : W.State) (r : R.State)
    → length message < 2 ^ 31
    → W.IsReady w
    → W.written w ≡ []
    → encode order W message w ≡ done (ok tt, w')
    → R.IsReady r
    → R.pending r ≡ W.sent w' ++ more
    → Reads R (decode order R old r) message more
decode-encode_fixed order W R old message more w w' r fits hw fresh enc hr e =
    let (w1, run, _, out) = encode_fixed order W message w fits hw in
    let same : w1 ≡ w' = cc (run, enc) in
    decode_fixed order R old message more r (omega arith) hr (
      e
      ∙ ap (λ t. W.sent t ++ more) (sym same)
      ∙ ap (λ t. t ++ more) (out ∙ ap (λ t. t ++ frame order message) fresh))
