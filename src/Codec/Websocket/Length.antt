-- ===== src/Codec/Websocket/Length.antt =====
-- The three forms of a frame's length, as `WebsocketCodec::decode` reads them.
use uvio.Prelude.{
  ℕ, ◌+◌, ◌-◌, ◌*◌, ◌/◌, ◌%◌, ◌^◌, ◌<◌, ◌≤◌, ◌≡◌, refl, ◌∙◌, Bool, true, false, List, [], ◌∷◌, ltb,
  ◌==◌, if◌then◌else◌, bit_and, bit_or, arith, inl, inr,
}
use uvio.Prelude.Bits.{
  bit_and_mask, bit_or_shifted, bit_or_comm, zero-bit_or, bit_or_above, bit_or_ones,
}
use uvio.Prelude.Order.{lt_or_le}
use uvio.Common.Result.{ok, done}
use uvio.Io.Ports.{ByteReader}
use uvio.Net.Endian.{ByteOrder, little_endian, ntoh16, hton64}
use uvio.Net.Endian.Swap.{word64_of, byte_of, ntoh64-hton64, bswap_16_lem, word16}
use uvio.Codec.Bytes.{Reads, read_into_lem}
use uvio.Codec.Websocket.{sign_extend, decode_length}

-- The second byte of a frame: the bit of the mask, and the length or the mark of its form.
abbrev pub mask_bit : Bool → ℕ
mask_bit client_side = if client_side then 0x80 else 0

pub length_bits :
    (client_side : Bool) (n : ℕ) → n < 128 → bit_and (bit_or (mask_bit client_side) n) 0x7F ≡ n
length_bits true n h =
    let e : bit_or 0x80 n ≡ n + 1 * 2 ^ 7 = bit_or_comm 0x80 n ∙ bit_or_shifted 7 n 1 h in
    rw e (bit_and_mask 7 (n + 1 * 2 ^ 7) ∙ omega arith)
length_bits false n h = rw (zero-bit_or n) (bit_and_mask 7 n ∙ omega arith)

module _ (order : ByteOrder) (R : ByteReader) where
  pub decode_short :
      (b0 n : ℕ) (client_side : Bool) (s : R.State)
      → n < 126
      → decode_length order R (b0 ∷ bit_or (mask_bit client_side) n ∷ []) s ≡ done (ok n, s)
  unfolding decode_length
  decode_short b0 n c s h =
      let e1 : (n == 126) ≡ false = grind arith in
      let e2 : (n == 127) ≡ false = grind arith in rw (length_bits c n (omega arith), e1, e2) refl

  join64 :
      (x : ℕ)
      → x < 2 ^ 64
      → bit_or
          (bit_or
            (bit_or
              (bit_or
                (bit_or
                  (bit_or (bit_or (byte_of 0 x) (byte_of 1 x * 2 ^ 8)) (byte_of 2 x * 2 ^ 16))
                  (byte_of 3 x * 2 ^ 24))
                (byte_of 4 x * 2 ^ 32))
              (byte_of 5 x * 2 ^ 40))
            (byte_of 6 x * 2 ^ 48))
          (byte_of 7 x * 2 ^ 56)
        ≡ x
  join64 x h =
      let a = byte_of 0 x in
      let b = byte_of 1 x in
      let c = byte_of 2 x in
      let d = byte_of 3 x in
      let e = byte_of 4 x in
      let f = byte_of 5 x in
      let g = byte_of 6 x in
      rw
        (
          bit_or_shifted 8 a b (omega arith),
          bit_or_shifted 16 (a + b * 2 ^ 8) c (omega arith),
          bit_or_shifted 24 (a + b * 2 ^ 8 + c * 2 ^ 16) d (omega arith),
          bit_or_shifted 32 (a + b * 2 ^ 8 + c * 2 ^ 16 + d * 2 ^ 24) e (omega arith),
          bit_or_shifted 40 (a + b * 2 ^ 8 + c * 2 ^ 16 + d * 2 ^ 24 + e * 2 ^ 32) f (omega arith),
          bit_or_shifted 48 (a + b * 2 ^ 8 + c * 2 ^ 16 + d * 2 ^ 24 + e * 2 ^ 32 + f * 2 ^ 40) g
              (omega arith),
          bit_or_shifted 56
              (a + b * 2 ^ 8 + c * 2 ^ 16 + d * 2 ^ 24 + e * 2 ^ 32 + f * 2 ^ 40 + g * 2 ^ 48)
              (byte_of 7 x) (omega arith),
        )
        (word64_of x h)

  pub decode_long :
      (b0 n : ℕ) (client_side : Bool) (more : List ℕ) (s : R.State)
      → n < 2 ^ 64
      → R.IsReady s
      → R.pending s ≡ (
          let x = hton64 order n in
          byte_of 0 x
          ∷ byte_of 1 x
          ∷ byte_of 2 x
          ∷ byte_of 3 x
          ∷ byte_of 4 x
          ∷ byte_of 5 x
          ∷ byte_of 6 x
          ∷ byte_of 7 x
          ∷ more)
      → Reads R (decode_length order R (b0 ∷ bit_or (mask_bit client_side) 127 ∷ []) s) n more
  unfolding decode_length
  decode_long b0 n c more s fits h e =
      let x = hton64 order n in
      let (back, x_fits) = ntoh64-hton64 order n fits in
      let (s', run, h', p) =
        read_into_lem R (0 ∷ 0 ∷ 0 ∷ 0 ∷ 0 ∷ 0 ∷ 0 ∷ 0 ∷ [])
          (byte_of 0 x
            ∷ byte_of 1 x
            ∷ byte_of 2 x
            ∷ byte_of 3 x
            ∷ byte_of 4 x
            ∷ byte_of 5 x
            ∷ byte_of 6 x
            ∷ byte_of 7 x
            ∷ [])
          more s h refl e in
      (s', rw (length_bits c 127 (omega arith)) (rw run (rw (join64 x x_fits, back) refl)), h', p)

sign_extend-low : (v : ℕ) → v < 256 → sign_extend v % 2 ^ 8 ≡ v
unfolding sign_extend
sign_extend-low v h = grind arith

sign_extend-small : (v : ℕ) → v < 0x80 → sign_extend v ≡ v
unfolding sign_extend
sign_extend-small v h = grind arith

sign_extend-high : (v : ℕ) → 0x80 ≤ v → v < 256 → sign_extend v ≡ (2 ^ 56 - 1) * 2 ^ 8 + v
unfolding sign_extend
sign_extend-high v h k = grind arith

-- What the two characters `u`, `v` of a short length come to: a high `u` hides `v`.
short_value :
    (u v : ℕ)
    → u < 256
    → v < 256
    → bit_or (sign_extend v * 2 ^ 8 % 2 ^ 64) (sign_extend u) % 2 ^ 16
      ≡ word16 u (if ltb u 0x80 then v else 255)
short_value u v hu hv =
    let x = sign_extend v % 2 ^ 56 in
    let low = sign_extend-low v hv in
    let shifted : sign_extend v * 2 ^ 8 % 2 ^ 64 ≡ x * 2 ^ 8 = omega arith in
    elim (lt_or_le u 0x80) [
      | inl h ↦
          let t : ltb u 0x80 ≡ true = grind arith in
          rw (shifted, sign_extend-small u h, bit_or_comm (x * 2 ^ 8) u, bit_or_shifted 8 u x hu, t)
            (omega arith)
      | inr h ↦
          let t : ltb u 0x80 ≡ false = grind arith in
          rw
            (
              shifted,
              sign_extend-high u h hu,
              bit_or_above 8 x (2 ^ 56 - 1) u hu,
              bit_or_ones 56 x (omega arith),
              t,
            )
            (omega arith)
    ]

-- The number that a little-endian machine makes of the two bytes of `n` in network order: `n` itself
-- below 32768, and with the lower byte 255 from there on.
abbrev pub heard : ℕ → ℕ
heard n = if ltb n 32768 then n else n / 2 ^ 8 * 2 ^ 8 + 255

pub heard_lem :
    (n : ℕ)
    → n < 2 ^ 16
    → ntoh16 little_endian
        (bit_or (sign_extend (n % 2 ^ 8) * 2 ^ 8 % 2 ^ 64) (sign_extend (n / 2 ^ 8)) % 2 ^ 16)
      ≡ heard n
unfolding ntoh16
heard_lem n h =
    let u = n / 2 ^ 8 in
    let v = n % 2 ^ 8 in
    let low = if ltb u 0x80 then v else 255 in
    let low_fits : low < 256 = grind arith in
    let total : word16 low u ≡ heard n = grind arith in
    rw
      (
        short_value u v (omega arith) (omega arith),
        bswap_16_lem u low (omega arith) low_fits,
        total,
      )
      refl

module _ (R : ByteReader) where
  -- From a second byte that marks a length of two bytes, and from a ready reader that has them pending
  -- in network order, a little-endian machine takes a length below 32768 as it is; of a larger one
  -- it takes the lower byte as 255.
  pub decode_medium :
      (b0 n : ℕ) (client_side : Bool) (more : List ℕ) (s : R.State)
      → n < 2 ^ 16
      → R.IsReady s
      → R.pending s ≡ n / 2 ^ 8 ∷ n % 2 ^ 8 ∷ more
      → Reads R
          (decode_length little_endian R (b0 ∷ bit_or (mask_bit client_side) 126 ∷ []) s)
          (if ltb n 32768 then n else n / 2 ^ 8 * 2 ^ 8 + 255)
          more
  unfolding decode_length
  decode_medium b0 n c more s fits h e =
      let (s', run, h', p) =
        read_into_lem R (b0 ∷ bit_or (mask_bit c) 126 ∷ []) (n / 2 ^ 8 ∷ n % 2 ^ 8 ∷ []) more s h
          refl e in
      (s', rw (length_bits c 126 (omega arith)) (rw run (rw (heard_lem n fits) refl)), h', p)
