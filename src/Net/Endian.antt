-- ===== src/Net/Endian.antt =====
-- uvio/net/endian.hpp: the byte swaps and `byteorder`. Values are unsigned integers of 16, 32 and 64
-- bits; every shift to the left is of a masked value that it keeps within the width.
pub mod Swap
use uvio.Prelude.{ℕ, ◌*◌, ◌/◌, ◌^◌, bit_and, bit_or}

-- `x >> k` and `x << k`.
infixl 68 ◌>>>◌ ◌<<<◌
abbrev pub ◌>>>◌ : ℕ → ℕ → ℕ
x >>> k = x / 2 ^ k

abbrev pub ◌<<<◌ : ℕ → ℕ → ℕ
x <<< k = x * 2 ^ k

infixl 40 ◌|||◌
abbrev pub ◌|||◌ : ℕ → ℕ → ℕ
a ||| b = bit_or a b

unfoldable pub bswap_16 : ℕ → ℕ
bswap_16 x = bit_and (x >>> 8) 0xFF ||| bit_and x 0xFF <<< 8

unfoldable pub bswap_32 : ℕ → ℕ
bswap_32 x =
    bit_and x 0xFF000000 >>> 24
    ||| bit_and x 0x00FF0000 >>> 8
    ||| bit_and x 0x0000FF00 <<< 8
    ||| bit_and x 0x000000FF <<< 24

unfoldable pub bswap_64 : ℕ → ℕ
bswap_64 x =
    bit_and x 0xFF00000000000000 >>> 56
    ||| bit_and x 0x00FF000000000000 >>> 40
    ||| bit_and x 0x0000FF0000000000 >>> 24
    ||| bit_and x 0x000000FF00000000 >>> 8
    ||| bit_and x 0x00000000FF000000 <<< 8
    ||| bit_and x 0x0000000000FF0000 <<< 24
    ||| bit_and x 0x000000000000FF00 <<< 40
    ||| bit_and x 0x00000000000000FF <<< 56

-- `__BYTE_ORDER` of the machine.
pub data ByteOrder : Type 0 where
  little_endian big_endian : ByteOrder

unfoldable pub hton64 : ByteOrder → ℕ → ℕ
unfolding bswap_64
hton64 little_endian x = bswap_64 x
hton64 big_endian x = x

unfoldable pub ntoh64 : ByteOrder → ℕ → ℕ
unfolding bswap_64
ntoh64 little_endian x = bswap_64 x
ntoh64 big_endian x = x

unfoldable pub hton32 : ByteOrder → ℕ → ℕ
unfolding bswap_32
hton32 little_endian x = bswap_32 x
hton32 big_endian x = x

unfoldable pub ntoh32 : ByteOrder → ℕ → ℕ
unfolding bswap_32
ntoh32 little_endian x = bswap_32 x
ntoh32 big_endian x = x

unfoldable pub hton16 : ByteOrder → ℕ → ℕ
unfolding bswap_16
hton16 little_endian x = bswap_16 x
hton16 big_endian x = x

unfoldable pub ntoh16 : ByteOrder → ℕ → ℕ
unfolding bswap_16
ntoh16 little_endian x = bswap_16 x
ntoh16 big_endian x = x
