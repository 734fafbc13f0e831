-- ===== src/Tests/Base64.antt =====
-- Base64 at concrete messages.
use uvio.Prelude.{length, ◌≡◌, refl, [], ◌∷◌, arith}
use uvio.Common.Result.{done}
use uvio.Common.Base64.{encode, decode}
use uvio.Common.Base64.RoundTrip.{decode-encode_base64, length-encode}

-- "Man!" is "TWFuIQ==".
man : encode (77 ∷ 97 ∷ 110 ∷ 33 ∷ []) ≡ 84 ∷ 87 ∷ 70 ∷ 117 ∷ 73 ∷ 81 ∷ 61 ∷ 61 ∷ []
unfolding encode
man = refl

decode-encode_base64_example :
    decode (encode (77 ∷ 97 ∷ 110 ∷ 33 ∷ [])) ≡ done (77 ∷ 97 ∷ 110 ∷ 33 ∷ [])
unfolding encode
decode-encode_base64_example =
    decode-encode_base64 (77 ∷ 97 ∷ 110 ∷ 33 ∷ [])
      (omega arith, (omega arith, (omega arith, (omega arith, tt)))) (omega arith)

length-encode_example : length (encode (77 ∷ 97 ∷ 110 ∷ 33 ∷ [])) ≡ 8
length-encode_example =
    length-encode (77 ∷ 97 ∷ 110 ∷ 33 ∷ [])
      (omega arith, (omega arith, (omega arith, (omega arith, tt))))
