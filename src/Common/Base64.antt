-- ===== src/Common/Base64.antt =====
-- uvio/common/base64.hpp, built without OpenSSL: the encoder and the decoder. Characters are bytes.
pub mod RoundTrip
use uvio.Common.Result.{Run, done, fault}
use uvio.Prelude.{
  ℕ, zero, suc, ◌+◌, ◌*◌, ◌/◌, ◌%◌, ◌^◌, Bool, true, false, not, ◌&&◌, ◌||◌, List, [], ◌∷◌, ◌++◌,
  length, get_or, take, replicate, leb, ltb, ◌==◌, ◌-◌, if◌then◌else◌, bit_and,
}

-- `base64_chars`.
abbrev pub base64_chars : List ℕ
base64_chars =
    65 ∷ 66 ∷ 67 ∷ 68 ∷ 69 ∷ 70 ∷ 71 ∷ 72 ∷ 73 ∷ 74 ∷ 75 ∷ 76 ∷ 77 ∷ 78 ∷ 79 ∷ 80 ∷ 81 ∷ 82 ∷ 83
    ∷ 84 ∷ 85 ∷ 86 ∷ 87 ∷ 88 ∷ 89 ∷ 90 ∷ 97 ∷ 98 ∷ 99 ∷ 100 ∷ 101 ∷ 102 ∷ 103 ∷ 104 ∷ 105 ∷ 106
    ∷ 107 ∷ 108 ∷ 109 ∷ 110 ∷ 111 ∷ 112 ∷ 113 ∷ 114 ∷ 115 ∷ 116 ∷ 117 ∷ 118 ∷ 119 ∷ 120 ∷ 121 ∷ 122
    ∷ 48 ∷ 49 ∷ 50 ∷ 51 ∷ 52 ∷ 53 ∷ 54 ∷ 55 ∷ 56 ∷ 57 ∷ 43 ∷ 47 ∷ []

-- `base64_chars.find`, as the byte of a `char`: 255 for `npos`.
abbrev pub find_from : ℕ → ℕ → List ℕ → ℕ
find_from c i [] = 255
find_from c i (x ∷ xs) = let rest = find_from c (i + 1) xs in if x == c then i else rest

unfoldable pub find : ℕ → ℕ
find c = find_from c 0 base64_chars

unfoldable pub char_of : ℕ → ℕ
char_of i = get_or base64_chars i 0

-- `is_base64`, with `isalnum` in the C locale.
unfoldable pub is_base64 : ℕ → Bool
is_base64 c =
    (leb 48 c && leb c 57)
    || (leb 65 c && leb c 90)
    || (leb 97 c && leb c 122)
    || (c == 43)
    || (c == 47)

-- `buf4` from `buf3`, and as characters.
unfoldable pub sextets : List ℕ → List ℕ
unfolding char_of
sextets buf3 =
    let a = get_or buf3 0 0 in
    let b = get_or buf3 1 0 in
    let c = get_or buf3 2 0 in
    char_of (bit_and a 0xFC / 2 ^ 2)
    ∷ char_of (bit_and a 0x03 * 2 ^ 4 + bit_and b 0xF0 / 2 ^ 4)
    ∷ char_of (bit_and b 0x0F * 2 ^ 2 + bit_and c 0xC0 / 2 ^ 6)
    ∷ char_of (bit_and c 0x3F)
    ∷ []

-- What is written after the loop, with `i` characters in `buf3`.
unfoldable pub encode_end : List ℕ → List ℕ
unfolding sextets
encode_end buf3 =
    let i = length buf3 in
    if i == 0
    then []
    else take (i + 1) (sextets (buf3 ++ replicate (3 - i) 0)) ++ replicate (3 - i) 0x3D

-- The loop over the message; `i` is the length of `buf3`.
unfoldable pub encode_rounds : List ℕ → List ℕ → List ℕ → List ℕ
unfolding encode_end
encode_rounds buf3 [] ret = ret ++ encode_end buf3
encode_rounds buf3 (ch ∷ message) ret =
    let full = encode_rounds [] message (ret ++ sextets (buf3 ++ ch ∷ [])) in
    let more = encode_rounds (buf3 ++ ch ∷ []) message ret in
    if length buf3 + 1 == 3 then full else more

unfoldable pub encode : List ℕ → List ℕ
unfolding encode_rounds
encode message = encode_rounds [] message []

-- `buf3` from the characters in `buf4`.
unfoldable pub octets : List ℕ → List ℕ
unfolding find
octets buf4 =
    let a = find (get_or buf4 0 0) in
    let b = find (get_or buf4 1 0) in
    let c = find (get_or buf4 2 0) in
    let d = find (get_or buf4 3 0) in
    (a * 2 ^ 2 + bit_and b 0x30 / 2 ^ 4) % 256
    ∷ (bit_and b 0x0F * 2 ^ 4 + bit_and c 0x3C / 2 ^ 2) % 256
    ∷ (bit_and c 0x03 * 2 ^ 6 + d) % 256
    ∷ []

unfoldable pub decode_end : List ℕ → List ℕ
unfolding octets
decode_end buf4 =
    let i = length buf4 in
    if i == 0 then [] else take (i - 1) (octets (buf4 ++ replicate (4 - i) 0))

-- The loop over the text; `i` is the length of `buf4`.
unfoldable pub decode_rounds : List ℕ → List ℕ → List ℕ → List ℕ
unfolding decode_end is_base64
decode_rounds buf4 [] ret = ret ++ decode_end buf4
decode_rounds buf4 (c ∷ text) ret =
    let full = decode_rounds [] text (ret ++ octets (buf4 ++ c ∷ [])) in
    let more = decode_rounds (buf4 ++ c ∷ []) text ret in
    if (c == 0x3D) || not (is_base64 c)
    then ret ++ decode_end buf4
    else if length buf4 + 1 == 4
    then full
    else more

-- A character at which the loop ends.
abbrev pub stops : List ℕ → Bool
stops [] = false
stops (c ∷ text) = (c == 0x3D) || not (is_base64 c) || stops text

-- `in_len` is the size as an `int`, and the loop ends by itself after so many rounds. From 2 ^ 31 on it
-- is negative: before the decrement that overflows there are `low - 2 ^ 31` rounds to meet a
-- character that ends the loop, and in these `in` does not overflow.
unfoldable pub decode : List ℕ → Run (List ℕ)
unfolding decode_rounds is_base64
decode text =
    let low = length text % 2 ^ 32 in
    let rounds = take (low - 2 ^ 31) text in
    if ltb low (2 ^ 31)
    then done (decode_rounds [] (take low text) [])
    else if stops rounds
    then done (decode_rounds [] rounds [])
    else fault
