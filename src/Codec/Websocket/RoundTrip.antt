-- ===== src/Codec/Websocket/RoundTrip.antt =====
-- A frame that `WebsocketCodec` encodes on one side is what it decodes on the other.
use uvio.Prelude.{
  ℕ, ◌+◌, ◌*◌, ◌/◌, ◌%◌, ◌^◌, ◌<◌, ◌≤◌, ◌≡◌, refl, sym, ap, ◌∙◌, ◌⊎◌, inl, inr, Bool, true, false,
  not, List, [], ◌∷◌, ◌++◌, append_assoc, length, ltb, if◌then◌else◌, bit_and, bit_or, arith,
}
use mathlib.Core.Path.{subst}
use uvio.Prelude.Bits.{bit_and_mask}
use uvio.Prelude.Order.{lt_or_le}
use uvio.Common.Result.{ok, done}
use uvio.Io.Ports.{ByteReader, ByteWriter}
use uvio.Net.Endian.{little_endian, hton16, hton64}
use uvio.Net.Endian.Swap.{bswap_16-bytes, word16, byte_of}
use uvio.Codec.Bytes.{write_from_lem, flush_all_lem, read_into_lem, resize, length-resize, Reads}
use uvio.Codec.Mask.{apply_mask, length-apply_mask, apply_mask_twice}
use uvio.Codec.Websocket.{
  text, opcode_byte, sign_extend, WebsocketFrame, decode_length, decode, header, encode,
}
use uvio.Codec.Websocket.Length.{mask_bit, decode_short, decode_medium, decode_long}

abbrev pub ones : List ℕ
ones = 1 ∷ 1 ∷ 1 ∷ 1 ∷ []

-- What follows the header: a client's mask and masked message, or a server's message as it is.
abbrev pub body : Bool → List ℕ → List ℕ
body client_side message = if client_side then ones ++ apply_mask message ones else message

-- What the caller's message holds after `encode`.
abbrev pub after : Bool → List ℕ → List ℕ
after client_side message = if client_side then apply_mask message ones else message

module _ (W : ByteWriter) where
  length-header :
      (client_side : Bool) (frame : WebsocketFrame)
      → length (header little_endian W client_side frame) < 2 ^ 31
  unfolding header
  length-header client_side frame = ground arith

  -- `encode` of less than 2 ^ 31 bytes with a ready writer adds the header and the body of a frame to what was written, and
  -- sends all of it; a client's message is masked afterwards where the caller holds it.
  pub encode_frame :
      (client_side : Bool) (frame : WebsocketFrame) (s : W.State)
      → length frame.message < 2 ^ 31
      → W.IsReady s
      → (s' : W.State) × (encode little_endian W client_side frame s
          ≡ done (ok (after client_side frame.message), s'))
        × W.IsReady s'
        × (W.sent s'
            ≡ W.written s
              ++ header little_endian W client_side frame
              ++ body client_side frame.message)
        × (W.written s' ≡ W.sent s')
  unfolding encode
  encode_frame true frame s small h =
      let head = header little_endian W true frame in
      let short = length-header true frame in
      let masked = apply_mask frame.message ones in
      let size = length-apply_mask frame.message ones (omega arith) in
      let (s1, run1, h1, all1) = write_from_lem W head s short h in
      let (s2, run2, h2, all2) = write_from_lem W ones s1 (omega arith) h1 in
      let (s3, run3, h3, all3) = write_from_lem W masked s2 (omega (arith, size)) h2 in
      let (s4, run4, h4, gone, kept) = flush_all_lem W s3 h3 in
      (
        s4,
        rw run1 (rw run2 (rw run3 (rw run4 refl))),
        h4,
        gone ∙ all3 ∙ rw (all2, all1) (append_assoc (W.written s ++ head) ones masked),
        kept,
      )
  encode_frame false frame s small h =
      let head = header little_endian W false frame in
      let short = length-header false frame in
      let (s1, run1, h1, all1) = write_from_lem W head s short h in
      let (s2, run2, h2, all2) = write_from_lem W frame.message s1 small h1 in
      let (s3, run3, h3, gone, kept) = flush_all_lem W s2 h2 in
      (s3, rw run1 (rw run2 (rw run3 refl)), h3, gone ∙ all2 ∙ rw all1 refl, kept)

-- The lengths that come through: on one byte, on two with the upper below 128, and on eight, below
-- 2 ^ 31.
abbrev pub Readable : ℕ → Type 0
Readable n = (n < 2 ^ 15) ⊎ ((2 ^ 16 ≤ n) × (n < 2 ^ 31))

byte : (x k : ℕ) → bit_and (x / 2 ^ k) 0xFF ≡ x / 2 ^ k % 256
byte x k = bit_and_mask 8 (x / 2 ^ k)

module _ (W : ByteWriter) (R : ByteReader) (client_side : Bool) (frame : WebsocketFrame) where
  -- A header from its third byte on, which `decode_length` reads as the length.
  abbrev Header : List ℕ → Type 0
  Header head =
      (b1 : ℕ) × (rest : List ℕ) × (head ≡ bit_or 0x80 (opcode_byte frame.opcode) ∷ b1 ∷ rest)
      × ((more : List ℕ) (s : R.State)
          → R.IsReady s
          → R.pending s ≡ rest ++ more
          → Reads R
              (decode_length little_endian R (bit_or 0x80 (opcode_byte frame.opcode) ∷ b1 ∷ []) s)
              (length frame.message) more)

  header_one : length frame.message < 126 → Header (header little_endian W client_side frame)
  unfolding header
  header_one h =
      let n = length frame.message in
      let b0 = bit_or 0x80 (opcode_byte frame.opcode) in
      let e : ltb n 126 ≡ true = grind arith in
      (
        bit_or (mask_bit client_side) n,
        [],
        rw e refl,
        λ more s r p. (s, decode_short little_endian R b0 n client_side s h, r, p),
      )

  header_two :
      126 ≤ length frame.message
      → length frame.message < 2 ^ 15
      → Header (header little_endian W client_side frame)
  unfolding header hton16
  header_two h k =
      let n = length frame.message in
      let b0 = bit_or 0x80 (opcode_byte frame.opcode) in
      let e1 : ltb n 126 ≡ false = grind arith in
      let e2 : ltb n 65536 ≡ true = grind arith in
      let e3 : ltb n 32768 ≡ true = grind arith in
      let swap = bswap_16-bytes n (omega arith) in
      let first : word16 (byte_of 1 n) (byte_of 0 n) / 2 ^ 0 % 256 ≡ n / 2 ^ 8 = omega arith in
      let second : word16 (byte_of 1 n) (byte_of 0 n) / 2 ^ 8 % 256 ≡ n % 2 ^ 8 = omega arith in
      (
        bit_or (mask_bit client_side) 126,
        n / 2 ^ 8 ∷ n % 2 ^ 8 ∷ [],
        rw (e1, e2) (rw (swap, byte _ 0, byte _ 8, first, second) refl),
        λ more s r p.
            let kept : (if ltb n 32768 then n else n / 2 ^ 8 * 2 ^ 8 + 255) ≡ n = rw e3 refl in
            subst
              (λ t.
                Reads R
                  (decode_length little_endian R (b0 ∷ bit_or (mask_bit client_side) 126 ∷ []) s) t
                  more)
              kept (decode_medium R b0 n client_side more s (omega arith) r p),
      )

  header_eight :
      2 ^ 16 ≤ length frame.message
      → length frame.message < 2 ^ 31
      → Header (header little_endian W client_side frame)
  unfolding header
  header_eight h k =
      let n = length frame.message in
      let x = hton64 little_endian n in
      let b0 = bit_or 0x80 (opcode_byte frame.opcode) in
      let e1 : ltb n 126 ≡ false = grind arith in
      let e2 : ltb n 65536 ≡ false = grind arith in
      (
        bit_or (mask_bit client_side) 127,
        byte_of 0 x
            ∷ byte_of 1 x
            ∷ byte_of 2 x
            ∷ byte_of 3 x
            ∷ byte_of 4 x
            ∷ byte_of 5 x
            ∷ byte_of 6 x
            ∷ byte_of 7 x
            ∷ [],
        rw (e1, e2)
            (rw
              (byte x 0, byte x 8, byte x 16, byte x 24, byte x 32, byte x 40, byte x 48, byte x 56)
              refl),
        λ more s r p. decode_long little_endian R b0 n client_side more s (omega arith) r p,
      )

  header_lem : Readable (length frame.message) → Header (header little_endian W client_side frame)
  header_lem (inr (h, k)) = header_eight h k
  header_lem (inl h) = elim (lt_or_le (length frame.message) 126) [
    | inl short ↦ header_one short
    | inr long ↦ header_two long h
  ]

-- A text frame.
abbrev pub text_frame : List ℕ → WebsocketFrame
text_frame message = record { opcode = text; message = message }

pub Readable-lt : (n : ℕ) → Readable n → n < 2 ^ 31
Readable-lt n (inl h) = omega arith
Readable-lt n (inr (h, k)) = k

module _ (W : ByteWriter) (R : ByteReader) where
  -- From a reader that has the frame of the other side pending, `decode` gives the message.
  pub decode_frame :
      (client_side : Bool) (old message more : List ℕ) (s : R.State)
      → Readable (length message)
      → R.IsReady s
      → R.pending s
        ≡ header little_endian W client_side (text_frame message)
          ++ body client_side message
          ++ more
      → Reads R (decode little_endian R (not client_side) old s) message more
  unfolding decode opcode_byte sign_extend
  decode_frame true old message more s fits h e =
      let frame = text_frame message in
      let n = length message in
      let below = Readable-lt n fits in
      let small : n < 2 ^ 32 = omega arith in
      let masked = apply_mask message ones in
      let same = length-apply_mask message ones small in
      let (b1, rest, shape, reads) = header_lem W R true frame fits in
      let (s1, run1, h1, p1) =
        read_into_lem R (0 ∷ 0 ∷ []) (bit_or 0x80 1 ∷ b1 ∷ []) (rest ++ (ones ++ masked ++ more)) s
          h refl
          (e ∙ rw shape (ap (λ t. 0x81 ∷ b1 ∷ t) (append_assoc rest (ones ++ masked) more))) in
      let (s2, run2, h2, p2) = reads (ones ++ masked ++ more) s1 h1 p1 in
      let (s3, run3, h3, p3) =
        read_into_lem R (0 ∷ 0 ∷ 0 ∷ 0 ∷ []) ones (masked ++ more) s2 h2 refl p2 in
      let (s4, run4, h4, p4) =
        read_into_lem R (resize n old) masked more s3 h3 (same ∙ sym (length-resize n old)) p3 in
      (
        s4,
        rw run1 (rw run2 (rw run3 (rw run4 (rw (apply_mask_twice message ones small) refl)))),
        h4,
        p4,
      )
  decode_frame false old message more s fits h e =
      let frame = text_frame message in
      let n = length message in
      let (b1, rest, shape, reads) = header_lem W R false frame fits in
      let (s1, run1, h1, p1) =
        read_into_lem R (0 ∷ 0 ∷ []) (bit_or 0x80 1 ∷ b1 ∷ []) (rest ++ (message ++ more)) s h refl
          (e ∙ rw shape (ap (λ t. 0x81 ∷ b1 ∷ t) (append_assoc rest message more))) in
      let (s2, run2, h2, p2) = reads (message ++ more) s1 h1 p1 in
      let (s3, run3, h3, p3) =
        read_into_lem R (resize n old) message more s2 h2 (sym (length-resize n old)) p2 in
      (s3, rw run1 (rw run2 (rw run3 refl)), h3, p3)

-- A text message whose length comes through, and that `encode` on one side has written to a fresh
-- writer, is what `decode` gives on the other side to a reader that receives those bytes, with
-- whatever follows them left to be read.
pub decode-encode_frame :
    (W : ByteWriter) (R : ByteReader) (client_side : Bool) (old message more kept : List ℕ)
    (w w' : W.State) (r : R.State)
    → Readable (length message)
    → W.IsReady w
    → W.written w ≡ []
    → encode little_endian W client_side (text_frame message) w ≡ done (ok kept, w')
    → R.IsReady r
    → R.pending r ≡ W.sent w' ++ more
    → Reads R (decode little_endian R (not client_side) old r) message more
decode-encode_frame W R c old message more kept w w' r fits hw fresh enc hr e =
    let (w1, run, _, out, _) =
      encode_frame W c (text_frame message) w (Readable-lt (length message) fits) hw in
    let same : w1 ≡ w' = cc (run, enc) in
    decode_frame W R c old message more r fits hr (
      e
      ∙ ap (λ t. W.sent t ++ more) (sym same)
      ∙ ap (λ t. t ++ more)
          (out
            ∙ ap (λ t. t ++ header little_endian W c (text_frame message) ++ body c message) fresh))
