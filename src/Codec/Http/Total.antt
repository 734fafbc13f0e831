-- ===== src/Codec/Http/Total.antt =====
-- `HttpCodec::parse_headers` ends on every text.
use uvio.Prelude.{
  ℕ, zero, suc, ◌+◌, ◌-◌, ◌<◌, ◌≡◌, refl, sym, ap, ◌∙◌, inl, inr, Bool, true, false, not, List, [],
  ◌∷◌, length, drop, ltb, arith, length-drop, drop-nil,
}
use uvio.Prelude.Order.{lt_or_le}
use uvio.Common.Result.{done}
use uvio.Codec.Http.{
  is_line_end, rounds_until, skip_until, HttpHeader, add_line, parse_rounds, parse_headers,
}

drop-drop : (n m : ℕ) (xs : List ℕ) → drop (n + m) xs ≡ drop m (drop n xs)
drop-drop zero m xs = ap (λ t. drop t xs) (omega arith)
drop-drop (suc n) m [] = drop-nil (suc n + m) ∙ sym (drop-nil m)
drop-drop (suc n) m (x ∷ xs) =
    let e : suc n + m ≡ suc (n + m) = omega arith in rw e (drop-drop n m xs)

forward_from :
    (stop : ℕ → Bool) (x : ℕ) (xs : List ℕ) (b : Bool)
    → stop x ≡ b
    → 0
      < rounds_until stop (x ∷ xs)
        + rounds_until (λ c. not (stop c)) (drop (rounds_until stop (x ∷ xs)) (x ∷ xs))
unfolding rounds_until
forward_from stop x xs true e = rw e (rw e (omega arith))
forward_from stop x xs false e = rw e (omega arith)

-- Of the two loops over one rest at least one goes forward.
forward :
    (stop : ℕ → Bool) (xs : List ℕ)
    → 0 < length xs
    → 0 < rounds_until stop xs + rounds_until (λ c. not (stop c)) (drop (rounds_until stop xs) xs)
forward stop [] h = absurd (omega arith)
forward stop (x ∷ xs) h = forward_from stop x xs (stop x) refl

round_forward :
    (headers : List ℕ) (start : ℕ)
    → start < length headers
    → start < skip_until (λ c. not (is_line_end c)) headers (skip_until is_line_end headers start)
unfolding skip_until
round_forward headers start h =
    let r = rounds_until is_line_end (drop start headers) in
    let e = drop-drop start r headers in
    let f = forward is_line_end (drop start headers) (omega (arith, length-drop start headers)) in
    rw e (omega arith)

parse_rounds_end :
    (fuel : ℕ) (headers : List ℕ) (start : ℕ) (header : HttpHeader)
    → length headers - start < fuel
    → (header' : HttpHeader) × (parse_rounds fuel headers start header ≡ done header')
unfolding parse_rounds
parse_rounds_end zero headers start header h = absurd (omega arith)
parse_rounds_end (suc fuel) headers start header h = elim (lt_or_le start (length headers)) [
  | inl more ↦
      let t : ltb start (length headers) ≡ true = grind arith in
      let f = round_forward headers start more in
      let end = skip_until is_line_end headers start in
      let next = skip_until (λ c. not (is_line_end c)) headers end in
      let (header', e) =
        parse_rounds_end fuel headers next (add_line headers start end header) (omega arith) in
      (header', rw t e)
  | inr past ↦ let t : ltb start (length headers) ≡ false = grind arith in (header, rw t refl)
]

-- On every text `parse_headers` ends, with the headers that it found: no round of its loop stands
-- still.
pub parse_headers_lem :
    (headers : List ℕ) → (header : HttpHeader) × (parse_headers headers ≡ done header)
unfolding parse_headers
parse_headers_lem headers = parse_rounds_end (suc (length headers)) headers 0 [] (omega arith)
