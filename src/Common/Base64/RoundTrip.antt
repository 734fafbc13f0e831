-- ===== src/Common/Base64/RoundTrip.antt =====
-- What `base64::encode` makes of a message, `base64::decode` takes back.
use uvio.Prelude.{
  length, ℕ, zero, suc, ◌+◌, ◌*◌, ◌/◌, ◌%◌, ◌^◌, ◌<◌, ◌≡◌, refl, sym, ap, ◌∙◌, Bool, true, false,
  not, ◌&&◌, ◌||◌, List, [], ◌∷◌, ◌++◌, append_assoc, All, take, ◌==◌, bit_and, arith, inl, inr,
  take_all, ltb,
}
use uvio.Prelude.Bits.{bit_and_mask, bit_and_shifted}
use uvio.Prelude.Order.{lt_or_le}
use uvio.Common.Result.{done}
use uvio.Common.Base64.{
  find, char_of, is_base64, sextets, encode_end, encode_rounds, encode, octets, decode_end,
  decode_rounds, decode,
}

-- A test of all numbers below a bound, run.
abbrev every : ℕ → (ℕ → Bool) → Bool
every zero f = true
every (suc n) f = f n && every n f

and-split : (a b : Bool) → (a && b) ≡ true → (a ≡ true) × (b ≡ true)
and-split true b h = (refl, h)
and-split false b h = cc

negated : (b : Bool) → not b ≡ true → b ≡ false
negated true h = sym h
negated false h = refl

every_lem : (n : ℕ) (f : ℕ → Bool) (s : ℕ) → every n f ≡ true → s < n → f s ≡ true
every_lem zero f s e h = absurd (omega arith)
every_lem (suc n) f s e h =
    let (now, before) = and-split (f n) (every n f) e in
    elim (lt_or_le s n) [
      | inl below ↦ every_lem n f s before below
      | inr here ↦ let same : s ≡ n = omega arith in ap f same ∙ now
    ]

eq_of : (a b : ℕ) → (a == b) ≡ true → a ≡ b
eq_of a b h = grind arith

-- The characters: each is one that the decoder takes, and is found again.
taken : (s : ℕ) → s < 64 → ((char_of s == 0x3D) || not (is_base64 (char_of s))) ≡ false
unfolding char_of is_base64
taken s h =
    let f : ℕ → Bool = λ t. not ((char_of t == 0x3D) || not (is_base64 (char_of t))) in
    negated _ (every_lem 64 f s refl h)

found : (s : ℕ) → s < 64 → find (char_of s) ≡ s
unfolding char_of find
found s h =
    let f : ℕ → Bool = λ t. find (char_of t) == t in
    eq_of (find (char_of s)) s (every_lem 64 f s refl h)

-- The masks and shifts, as arithmetic.
module _ (a b : ℕ) (ha : a < 256) (hb : b < 256) where
  sextet_0 : bit_and a 0xFC / 2 ^ 2 ≡ a / 4
  sextet_0 = rw (bit_and_shifted 2 a 63, bit_and_mask 6 (a / 2 ^ 2)) (omega arith)

  sextet_1 : bit_and a 0x03 * 2 ^ 4 + bit_and b 0xF0 / 2 ^ 4 ≡ a % 4 * 16 + b / 16
  sextet_1 = rw (bit_and_mask 2 a, bit_and_shifted 4 b 15, bit_and_mask 4 (b / 2 ^ 4)) (omega arith)

  sextet_2 : bit_and a 0x0F * 2 ^ 2 + bit_and b 0xC0 / 2 ^ 6 ≡ a % 16 * 4 + b / 64
  sextet_2 = rw (bit_and_mask 4 a, bit_and_shifted 6 b 3, bit_and_mask 2 (b / 2 ^ 6)) (omega arith)

  sextet_3 : bit_and a 0x3F ≡ a % 64
  sextet_3 = bit_and_mask 6 a

module _ (a b : ℕ) (ha : a < 64) (hb : b < 64) where
  octet_0 : (a * 2 ^ 2 + bit_and b 0x30 / 2 ^ 4) % 256 ≡ a * 4 + b / 16
  octet_0 = rw (bit_and_shifted 4 b 3, bit_and_mask 2 (b / 2 ^ 4)) (omega arith)

  octet_1 : (bit_and a 0x0F * 2 ^ 4 + bit_and b 0x3C / 2 ^ 2) % 256 ≡ a % 16 * 16 + b / 4
  octet_1 = rw (bit_and_mask 4 a, bit_and_shifted 2 b 15, bit_and_mask 4 (b / 2 ^ 2)) (omega arith)

  octet_2 : (bit_and a 0x03 * 2 ^ 6 + b) % 256 ≡ a % 4 * 64 + b
  octet_2 = rw (bit_and_mask 2 a) (omega arith)

sextets_lem :
    (a b c : ℕ)
    → a < 256
    → b < 256
    → c < 256
    → sextets (a ∷ b ∷ c ∷ [])
      ≡ char_of (a / 4)
        ∷ char_of (a % 4 * 16 + b / 16)
        ∷ char_of (b % 16 * 4 + c / 64)
        ∷ char_of (c % 64)
        ∷ []
unfolding sextets
sextets_lem a b c ha hb hc =
    rw (sextet_0 a b ha hb, sextet_1 a b ha hb, sextet_2 b c hb hc, sextet_3 c c hc hc) refl

octets_lem :
    (s t u v : ℕ)
    → s < 64
    → t < 64
    → u < 64
    → v < 64
    → octets (char_of s ∷ char_of t ∷ char_of u ∷ char_of v ∷ [])
      ≡ (s * 4 + t / 16) ∷ (t % 16 * 16 + u / 4) ∷ (u % 4 * 64 + v) ∷ []
unfolding octets
octets_lem s t u v hs ht hu hv =
    rw (found s hs, found t ht, found u hu, found v hv)
      (rw (octet_0 s t hs ht, octet_1 t u ht hu, octet_2 u v hu hv) refl)

encode_three :
    (a b c : ℕ) (message out : List ℕ)
    → encode_rounds [] (a ∷ b ∷ c ∷ message) out
      ≡ encode_rounds [] message (out ++ sextets (a ∷ b ∷ c ∷ []))
unfolding encode_rounds
encode_three a b c message out = refl

decode_four :
    (s t u v : ℕ) (text ret : List ℕ)
    → s < 64
    → t < 64
    → u < 64
    → v < 64
    → decode_rounds [] (char_of s ∷ char_of t ∷ char_of u ∷ char_of v ∷ text) ret
      ≡ decode_rounds [] text (ret ++ octets (char_of s ∷ char_of t ∷ char_of u ∷ char_of v ∷ []))
unfolding decode_rounds
decode_four s t u v text ret hs ht hu hv = rw (taken s hs, taken t ht, taken u hu, taken v hv) refl

encode_none : (out : List ℕ) → encode_rounds [] [] out ≡ out ++ []
unfolding encode_rounds encode_end
encode_none out = refl

decode_none : (ret : List ℕ) → decode_rounds [] [] ret ≡ ret ++ []
unfolding decode_rounds decode_end
decode_none ret = refl

-- The last one or two characters, which are padded.
encode_one :
    (a : ℕ) (out : List ℕ)
    → a < 256
    → encode_rounds [] (a ∷ []) out
      ≡ out ++ (char_of (a / 4) ∷ char_of (a % 4 * 16) ∷ 0x3D ∷ 0x3D ∷ [])
unfolding encode_rounds encode_end
encode_one a out ha =
    let e : a % 4 * 16 + 0 / 16 ≡ a % 4 * 16 = omega arith in
    ap (λ x. out ++ (take 2 x ++ 0x3D ∷ 0x3D ∷ []))
      (sextets_lem a 0 0 ha (omega arith) (omega arith))
    ∙ rw e refl

encode_two :
    (a b : ℕ) (out : List ℕ)
    → a < 256
    → b < 256
    → encode_rounds [] (a ∷ b ∷ []) out
      ≡ out ++ (char_of (a / 4) ∷ char_of (a % 4 * 16 + b / 16) ∷ char_of (b % 16 * 4) ∷ 0x3D ∷ [])
unfolding encode_rounds encode_end
encode_two a b out ha hb =
    let e : b % 16 * 4 + 0 / 64 ≡ b % 16 * 4 = omega arith in
    ap (λ x. out ++ (take 3 x ++ 0x3D ∷ [])) (sextets_lem a b 0 ha hb (omega arith)) ∙ rw e refl

decode_two :
    (s t : ℕ) (ret : List ℕ)
    → s < 64
    → t < 64
    → decode_rounds [] (char_of s ∷ char_of t ∷ 0x3D ∷ 0x3D ∷ []) ret ≡ ret ++ (s * 4 + t / 16) ∷ []
unfolding decode_rounds decode_end octets
decode_two s t ret hs ht =
    rw (taken s hs, taken t ht) (rw (found s hs, found t ht) (rw (octet_0 s t hs ht) refl))

decode_three :
    (s t u : ℕ) (ret : List ℕ)
    → s < 64
    → t < 64
    → u < 64
    → decode_rounds [] (char_of s ∷ char_of t ∷ char_of u ∷ 0x3D ∷ []) ret
      ≡ ret ++ (s * 4 + t / 16) ∷ (t % 16 * 16 + u / 4) ∷ []
unfolding decode_rounds decode_end octets
decode_three s t u ret hs ht hu =
    rw (taken s hs, taken t ht, taken u hu)
      (rw (found s hs, found t ht, found u hu) (rw (octet_0 s t hs ht, octet_1 t u ht hu) refl))

-- Each message has a text that the encoder writes for it and that the decoder takes back.
Coded : List ℕ → Type 0
Coded message =
    (text : List ℕ) × ((out : List ℕ) → encode_rounds [] message out ≡ out ++ text)
    × ((ret : List ℕ) → decode_rounds [] text ret ≡ ret ++ message)
    × (length text ≡ (length message + 2) / 3 * 4)

coded : (message : List ℕ) → All (λ x. x < 256) message → Coded message
unfolding Coded
coded [] h = ([], encode_none, decode_none, omega arith)
coded (a ∷ []) (ha, _) =
    let e : a / 4 * 4 + a % 4 * 16 / 16 ≡ a = omega arith in
    (
      char_of (a / 4) ∷ char_of (a % 4 * 16) ∷ 0x3D ∷ 0x3D ∷ [],
      λ out. encode_one a out ha,
      λ ret.
          decode_two (a / 4) (a % 4 * 16) ret (omega arith) (omega arith)
          ∙ ap (λ t. ret ++ t ∷ []) e,
      omega arith,
    )
coded (a ∷ b ∷ []) (ha, (hb, _)) =
    let e : a / 4 * 4 + (a % 4 * 16 + b / 16) / 16 ≡ a = omega arith in
    let e' : (a % 4 * 16 + b / 16) % 16 * 16 + b % 16 * 4 / 4 ≡ b = omega arith in
    (
      char_of (a / 4) ∷ char_of (a % 4 * 16 + b / 16) ∷ char_of (b % 16 * 4) ∷ 0x3D ∷ [],
      λ out. encode_two a b out ha hb,
      λ ret.
          decode_three (a / 4) (a % 4 * 16 + b / 16) (b % 16 * 4) ret (omega arith) (omega arith)
            (omega arith)
          ∙ rw (e, e') refl,
      omega arith,
    )
coded (a ∷ b ∷ c ∷ message) (ha, (hb, (hc, h))) =
    let (text, enc, dec, size) = coded message h in
    let s = a / 4 in
    let t = a % 4 * 16 + b / 16 in
    let u = b % 16 * 4 + c / 64 in
    let v = c % 64 in
    let four = char_of s ∷ char_of t ∷ char_of u ∷ char_of v ∷ [] in
    let e : s * 4 + t / 16 ≡ a = omega arith in
    let e' : t % 16 * 16 + u / 4 ≡ b = omega arith in
    let e'' : u % 4 * 64 + v ≡ c = omega arith in
    let back : octets four ≡ a ∷ b ∷ c ∷ [] =
      octets_lem s t u v (omega arith) (omega arith) (omega arith) (omega arith)
      ∙ rw (e, e', e'') refl in
    (
      four ++ text,
      λ out.
          encode_three a b c message out
          ∙ enc (out ++ sextets (a ∷ b ∷ c ∷ []))
          ∙ append_assoc out (sextets (a ∷ b ∷ c ∷ [])) text
          ∙ ap (λ x. out ++ (x ++ text)) (sextets_lem a b c ha hb hc),
      λ ret.
          decode_four s t u v text ret (omega arith) (omega arith) (omega arith) (omega arith)
          ∙ dec (ret ++ octets four)
          ∙ append_assoc ret (octets four) message
          ∙ ap (λ x. ret ++ (x ++ message)) back,
      omega (arith, size),
    )

-- A text of less than 2 ^ 31 characters is decoded to its end.
decode_whole :
    (text : List ℕ) → length text < 2 ^ 31 → decode text ≡ done (decode_rounds [] text [])
unfolding decode
decode_whole text h =
    let low : length text % 2 ^ 32 ≡ length text = omega arith in
    let small : ltb (length text) (2 ^ 31) ≡ true = ground arith in
    rw (decode, low)
      (rw small
        (ap (λ t. done (decode_rounds [] t [])) (take_all (length text) text (omega arith))))

-- What `encode` makes of a message of bytes, `decode` takes back if the text has less than 2 ^ 31
-- characters.
pub decode-encode_base64 :
    (message : List ℕ)
    → All (λ x. x < 256) message
    → length (encode message) < 2 ^ 31
    → decode (encode message) ≡ done message
unfolding encode Coded
decode-encode_base64 message h fits =
    let (text, enc, dec, _) = coded message h in
    decode_whole (encode message) fits
    ∙ ap (λ t. done (decode_rounds [] t [])) (enc [])
    ∙ ap done (dec [])

-- The text of a message of `n` bytes has four characters for each three bytes, the last group being
-- padded.
pub length-encode :
    (message : List ℕ)
    → All (λ x. x < 256) message
    → length (encode message) ≡ (length message + 2) / 3 * 4
unfolding encode Coded
length-encode message h = let (text, enc, _, size) = coded message h in ap length (enc []) ∙ size
