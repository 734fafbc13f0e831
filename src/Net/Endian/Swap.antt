-- ===== src/Net/Endian/Swap.antt =====
-- The byte swaps as arithmetic on bytes, and that they undo themselves.
use uvio.Prelude.{ℕ, ◌+◌, ◌*◌, ◌/◌, ◌%◌, ◌^◌, ◌<◌, ◌≡◌, refl, bit_and, arith, ap, sym, ◌∙◌}
use uvio.Prelude.Bits.{bit_and_mask, bit_and_shifted, bit_or_shifted}
use uvio.Net.Endian.{
  bswap_16, bswap_32, bswap_64, ByteOrder, little_endian, big_endian, hton64, ntoh64, hton32,
  ntoh32, hton16, ntoh16,
}

-- The numbers of two, four and eight bytes, the lowest first.
abbrev pub word16 : ℕ → ℕ → ℕ
word16 a b = a + b * 2 ^ 8

abbrev pub word32 : ℕ → ℕ → ℕ → ℕ → ℕ
word32 a b c d = a + b * 2 ^ 8 + c * 2 ^ 16 + d * 2 ^ 24

-- The byte of `x` at bit `k`, where the mask leaves it.
byte_at : (k x : ℕ) → bit_and x (0xFF * 2 ^ k) ≡ x / 2 ^ k % 256 * 2 ^ k
byte_at k x = rw (bit_and_shifted k x 0xFF) (ap (λ t. t * 2 ^ k) (bit_and_mask 8 (x / 2 ^ k)))

pub bswap_16_lem : (a b : ℕ) → a < 256 → b < 256 → bswap_16 (word16 a b) ≡ word16 b a
unfolding bswap_16
bswap_16_lem a b ha hb =
    let x = word16 a b in
    ground (arith, bit_and_mask 8 (x / 2 ^ 8), bit_and_mask 8 x, bit_or_shifted 8 b a)

pub bswap_32_lem :
    (a b c d : ℕ)
    → a < 256
    → b < 256
    → c < 256
    → d < 256
    → bswap_32 (word32 a b c d) ≡ word32 d c b a
unfolding bswap_32
bswap_32_lem a b c d ha hb hc hd =
    let x = word32 a b c d in
    let e0 : x / 2 ^ 24 % 256 * 2 ^ 24 / 2 ^ 24 ≡ d = omega arith in
    let e1 : x / 2 ^ 16 % 256 * 2 ^ 16 / 2 ^ 8 ≡ c * 2 ^ 8 = omega arith in
    let e2 : x / 2 ^ 8 % 256 * 2 ^ 8 * 2 ^ 8 ≡ b * 2 ^ 16 = omega arith in
    let e3 : x / 2 ^ 0 % 256 * 2 ^ 0 * 2 ^ 24 ≡ a * 2 ^ 24 = omega arith in
    rw
      (
        byte_at 24 x,
        byte_at 16 x,
        byte_at 8 x,
        byte_at 0 x,
        e0,
        e1,
        e2,
        e3,
        bit_or_shifted 8 d c (omega arith),
        bit_or_shifted 16 (d + c * 2 ^ 8) b (omega arith),
        bit_or_shifted 24 (d + c * 2 ^ 8 + b * 2 ^ 16) a (omega arith),
      )
      refl

abbrev pub word64 : (a b c d e f g h : ℕ) → ℕ
word64 a b c d e f g h =
    a + b * 2 ^ 8 + c * 2 ^ 16 + d * 2 ^ 24 + e * 2 ^ 32 + f * 2 ^ 40 + g * 2 ^ 48 + h * 2 ^ 56

pub bswap_64_lem :
    (a b c d e f g h : ℕ)
    → a < 256
    → b < 256
    → c < 256
    → d < 256
    → e < 256
    → f < 256
    → g < 256
    → h < 256
    → bswap_64 (word64 a b c d e f g h) ≡ word64 h g f e d c b a
unfolding bswap_64
bswap_64_lem a b c d e f g h ha hb hc hd he hf hg hh =
    let x = word64 a b c d e f g h in
    let e0 : x / 2 ^ 56 % 256 * 2 ^ 56 / 2 ^ 56 ≡ h = omega arith in
    let e1 : x / 2 ^ 48 % 256 * 2 ^ 48 / 2 ^ 40 ≡ g * 2 ^ 8 = omega arith in
    let e2 : x / 2 ^ 40 % 256 * 2 ^ 40 / 2 ^ 24 ≡ f * 2 ^ 16 = omega arith in
    let e3 : x / 2 ^ 32 % 256 * 2 ^ 32 / 2 ^ 8 ≡ e * 2 ^ 24 = omega arith in
    let e4 : x / 2 ^ 24 % 256 * 2 ^ 24 * 2 ^ 8 ≡ d * 2 ^ 32 = omega arith in
    let e5 : x / 2 ^ 16 % 256 * 2 ^ 16 * 2 ^ 24 ≡ c * 2 ^ 40 = omega arith in
    let e6 : x / 2 ^ 8 % 256 * 2 ^ 8 * 2 ^ 40 ≡ b * 2 ^ 48 = omega arith in
    let e7 : x / 2 ^ 0 % 256 * 2 ^ 0 * 2 ^ 56 ≡ a * 2 ^ 56 = omega arith in
    rw
      (
        byte_at 56 x,
        byte_at 48 x,
        byte_at 40 x,
        byte_at 32 x,
        byte_at 24 x,
        byte_at 16 x,
        byte_at 8 x,
        byte_at 0 x,
        e0,
        e1,
        e2,
        e3,
        e4,
        e5,
        e6,
        e7,
        bit_or_shifted 8 (h) g (omega arith),
        bit_or_shifted 16 (h + g * 2 ^ 8) f (omega arith),
        bit_or_shifted 24 (h + g * 2 ^ 8 + f * 2 ^ 16) e (omega arith),
        bit_or_shifted 32 (h + g * 2 ^ 8 + f * 2 ^ 16 + e * 2 ^ 24) d (omega arith),
        bit_or_shifted 40 (h + g * 2 ^ 8 + f * 2 ^ 16 + e * 2 ^ 24 + d * 2 ^ 32) c (omega arith),
        bit_or_shifted 48 (h + g * 2 ^ 8 + f * 2 ^ 16 + e * 2 ^ 24 + d * 2 ^ 32 + c * 2 ^ 40) b
            (omega arith),
        bit_or_shifted 56
            (h + g * 2 ^ 8 + f * 2 ^ 16 + e * 2 ^ 24 + d * 2 ^ 32 + c * 2 ^ 40 + b * 2 ^ 48) a
            (omega arith),
      )
      refl

-- The byte of `x` at bit `8 * i`.
abbrev pub byte_of : ℕ → ℕ → ℕ
byte_of i x = x / 2 ^ (8 * i) % 256

word16_of : (x : ℕ) → x < 2 ^ 16 → word16 (byte_of 0 x) (byte_of 1 x) ≡ x
word16_of x h = omega arith

word32_of :
    (x : ℕ) → x < 2 ^ 32 → word32 (byte_of 0 x) (byte_of 1 x) (byte_of 2 x) (byte_of 3 x) ≡ x
word32_of x h = omega arith

pub word64_of :
    (x : ℕ)
    → x < 2 ^ 64
    → word64
        (byte_of 0 x)
        (byte_of 1 x)
        (byte_of 2 x)
        (byte_of 3 x)
        (byte_of 4 x)
        (byte_of 5 x)
        (byte_of 6 x)
        (byte_of 7 x)
      ≡ x
word64_of x h = omega arith

pub byte-lt : (i x : ℕ) → byte_of i x < 256
byte-lt i x = omega arith

-- The swapped number, by bytes.
pub bswap_64-bytes :
    (x : ℕ)
    → x < 2 ^ 64
    → bswap_64 x
      ≡ word64
          (byte_of 7 x)
          (byte_of 6 x)
          (byte_of 5 x)
          (byte_of 4 x)
          (byte_of 3 x)
          (byte_of 2 x)
          (byte_of 1 x)
          (byte_of 0 x)
bswap_64-bytes x h =
    ap bswap_64 (sym (word64_of x h))
    ∙ bswap_64_lem _ _ _ _ _ _ _ _ (byte-lt 0 x) (byte-lt 1 x) (byte-lt 2 x) (byte-lt 3 x)
        (byte-lt 4 x) (byte-lt 5 x) (byte-lt 6 x) (byte-lt 7 x)

pub bswap_64-lt : (x : ℕ) → x < 2 ^ 64 → bswap_64 x < 2 ^ 64
bswap_64-lt x h = rw (bswap_64-bytes x h) (omega arith)

pub bswap_64_twice : (x : ℕ) → x < 2 ^ 64 → bswap_64 (bswap_64 x) ≡ x
bswap_64_twice x h =
    ap bswap_64 (bswap_64-bytes x h)
    ∙ bswap_64_lem _ _ _ _ _ _ _ _ (byte-lt 7 x) (byte-lt 6 x) (byte-lt 5 x) (byte-lt 4 x)
        (byte-lt 3 x) (byte-lt 2 x) (byte-lt 1 x) (byte-lt 0 x)
    ∙ word64_of x h

pub bswap_32-bytes :
    (x : ℕ)
    → x < 2 ^ 32
    → bswap_32 x ≡ word32 (byte_of 3 x) (byte_of 2 x) (byte_of 1 x) (byte_of 0 x)
bswap_32-bytes x h =
    ap bswap_32 (sym (word32_of x h))
    ∙ bswap_32_lem _ _ _ _ (byte-lt 0 x) (byte-lt 1 x) (byte-lt 2 x) (byte-lt 3 x)

pub bswap_32-lt : (x : ℕ) → x < 2 ^ 32 → bswap_32 x < 2 ^ 32
bswap_32-lt x h = rw (bswap_32-bytes x h) (omega arith)

pub bswap_32_twice : (x : ℕ) → x < 2 ^ 32 → bswap_32 (bswap_32 x) ≡ x
bswap_32_twice x h =
    ap bswap_32 (bswap_32-bytes x h)
    ∙ bswap_32_lem _ _ _ _ (byte-lt 3 x) (byte-lt 2 x) (byte-lt 1 x) (byte-lt 0 x)
    ∙ word32_of x h

pub bswap_16-bytes : (x : ℕ) → x < 2 ^ 16 → bswap_16 x ≡ word16 (byte_of 1 x) (byte_of 0 x)
bswap_16-bytes x h =
    ap bswap_16 (sym (word16_of x h)) ∙ bswap_16_lem _ _ (byte-lt 0 x) (byte-lt 1 x)

pub bswap_16-lt : (x : ℕ) → x < 2 ^ 16 → bswap_16 x < 2 ^ 16
bswap_16-lt x h = rw (bswap_16-bytes x h) (omega arith)

pub bswap_16_twice : (x : ℕ) → x < 2 ^ 16 → bswap_16 (bswap_16 x) ≡ x
bswap_16_twice x h =
    ap bswap_16 (bswap_16-bytes x h) ∙ bswap_16_lem _ _ (byte-lt 1 x) (byte-lt 0 x) ∙ word16_of x h

-- On a machine of either byte order `ntoh64` undoes `hton64` on every 64-bit number, and the
-- converted number has 64 bits again.
pub ntoh64-hton64 :
    (order : ByteOrder) (x : ℕ)
    → x < 2 ^ 64
    → (ntoh64 order (hton64 order x) ≡ x) × (hton64 order x < 2 ^ 64)
unfolding ntoh64 hton64
ntoh64-hton64 little_endian x h = (bswap_64_twice x h, bswap_64-lt x h)
ntoh64-hton64 big_endian x h = (refl, h)

-- On a machine of either byte order `ntoh32` undoes `hton32` on every 32-bit number, and the
-- converted number has 32 bits again.
pub ntoh32-hton32 :
    (order : ByteOrder) (x : ℕ)
    → x < 2 ^ 32
    → (ntoh32 order (hton32 order x) ≡ x) × (hton32 order x < 2 ^ 32)
unfolding ntoh32 hton32
ntoh32-hton32 little_endian x h = (bswap_32_twice x h, bswap_32-lt x h)
ntoh32-hton32 big_endian x h = (refl, h)

-- On a machine of either byte order `ntoh16` undoes `hton16` on every 16-bit number, and the
-- converted number has 16 bits again.
pub ntoh16-hton16 :
    (order : ByteOrder) (x : ℕ)
    → x < 2 ^ 16
    → (ntoh16 order (hton16 order x) ≡ x) × (hton16 order x < 2 ^ 16)
unfolding ntoh16 hton16
ntoh16-hton16 little_endian x h = (bswap_16_twice x h, bswap_16-lt x h)
ntoh16-hton16 big_endian x h = (refl, h)
