-- ===== src/Codec/Http/Headers.antt =====
-- `HttpCodec::parse_headers` on the text that the program itself writes for headers.
use uvio.Prelude.{
  ℕ, zero, suc, ◌+◌, ◌-◌, ◌^◌, ◌<◌, ◌≡◌, refl, sym, ap, ap₂, ◌∙◌, ◌⊎◌, inl, inr, Bool, true, false,
  not, List, [], ◌∷◌, ◌++◌, append_assoc, append-nil, some, length, drop, All, ltb, ◌==◌, arith,
  length-append, drop-length_append,
}
use uvio.Common.Result.{done}
use uvio.Codec.Http.{
  substr, is_line_end, is_space, rounds_until, skip_until, trim, HttpHeader, add, find_char, sub64,
  add_line, parse_rounds, parse_headers,
}
use uvio.Codec.Http.Encode.{headers_text}
use uvio.Codec.Http.Line.{Passes, rounds_until_all, field_lem, substr-append}
use uvio.Codec.Http.Trim.{trim-Blank, trim_lem}

-- No white space at either end.
abbrev pub IsTrimmed : List ℕ → Type 0
IsTrimmed xs =
    (c : ℕ) × (cs ds : List ℕ) × (d : ℕ) × (xs ≡ c ∷ cs)
    × (xs ≡ ds ++ d ∷ [])
    × (is_space c ≡ false)
    × (is_space d ≡ false)

-- A header that comes through: a name without a colon, and no line ends.
pub record IsPlain (kv : List ℕ × List ℕ) : Type 0 where
  pub key_trimmed : IsTrimmed (kv.0)
  pub key_colon : Passes (λ c. c == 0x3A) (kv.0)
  pub key_line : Passes is_line_end (kv.0)
  pub value_trimmed : (kv.1 ≡ []) ⊎ IsTrimmed (kv.1)
  pub value_line : Passes is_line_end (kv.1)

trim_self : (xs : List ℕ) → IsTrimmed xs → trim xs ≡ xs
trim_self xs (c, cs, ds, d, e, e', hc, hd) =
    let t = trim_lem [] cs ds [] c d tt tt hc hd (sym e ∙ e') in
    ap trim (e ∙ sym (append-nil (c ∷ cs))) ∙ t ∙ sym e

trim_value : (xs : List ℕ) → (xs ≡ []) ⊎ IsTrimmed xs → trim (0x20 ∷ xs) ≡ xs
unfolding is_space
trim_value xs (inl e) = ap (λ t. trim (0x20 ∷ t)) e ∙ trim-Blank (0x20 ∷ []) (refl, tt) ∙ sym e
trim_value xs (inr (c, cs, ds, d, e, e', hc, hd)) =
    let t = trim_lem (0x20 ∷ []) cs ds [] c d (refl, tt) tt hc hd (sym e ∙ e') in
    ap (λ t. trim (0x20 ∷ t)) (e ∙ sym (append-nil (c ∷ cs))) ∙ t ∙ sym e

pub All-append : (p : ℕ → Bool) (xs ys : List ℕ) → Passes p xs → Passes p ys → Passes p (xs ++ ys)
All-append p [] ys hx hy = hy
All-append p (x ∷ xs) ys (h, hx) hy = (h, All-append p xs ys hx hy)

find_char_lem :
    (xs more : List ℕ)
    → Passes (λ c. c == 0x3A) xs
    → find_char 0x3A (xs ++ 0x3A ∷ more) ≡ some (length xs)
unfolding find_char
find_char_lem [] more p = refl
find_char_lem (x ∷ xs) more (h, p) = rw (h, find_char_lem xs more p) refl

add_line_at :
    (headers : List ℕ) (start end i : ℕ) (header : HttpHeader) (key value k v : List ℕ)
    → find_char 0x3A (drop start headers) ≡ some i
    → substr headers start (start + i - start) ≡ key
    → substr headers (start + i + 1) (sub64 (sub64 end (start + i)) 1) ≡ value
    → trim key ≡ k
    → trim value ≡ v
    → add_line headers start end header ≡ header ++ ((k, v) ∷ [])
unfolding add_line add
add_line_at headers start end i header key value k v f ek ev tk tv =
    rw (f, add_line) (rw (ek, ev, tk, tv) refl)

-- One line, behind `pre`, is added as it was written.
module _ (pre k v more : List ℕ) (plain : IsPlain (k, v)) where
  abbrev headers : List ℕ
  headers = pre ++ (k ++ 0x3A ∷ 0x20 ∷ (v ++ 0x0D ∷ 0x0A ∷ more))

  abbrev line : List ℕ
  line = k ++ 0x3A ∷ 0x20 ∷ v

  line_cut : headers ≡ pre ++ (line ++ 0x0D ∷ 0x0A ∷ more)
  line_cut = ap (λ t. pre ++ t) (sym (append_assoc k (0x3A ∷ 0x20 ∷ v) (0x0D ∷ 0x0A ∷ more)))

  line_end : skip_until is_line_end headers (length pre) ≡ length pre + length line
  line_end =
      (field_lem is_line_end headers pre line 0x0D (0x0A ∷ more) line_cut
        (All-append is_line_end k (0x3A ∷ 0x20 ∷ v) plain.key_line (refl, (refl, plain.value_line)))
        refl).0

  add_line_lem :
      (header : HttpHeader)
      → length headers < 2 ^ 64
      → add_line headers (length pre) (length pre + length line) header ≡ header ++ ((k, v) ∷ [])
  add_line_lem header fits =
      let p = length pre in
      let n = length k in
      let before = pre ++ (k ++ 0x3A ∷ []) in
      let at : length before ≡ p + n + 1 =
        omega (arith, length-append pre (k ++ 0x3A ∷ []), length-append k (0x3A ∷ [])) in
      let long : length line ≡ n + (2 + length v) =
        omega (arith, length-append k (0x3A ∷ 0x20 ∷ v)) in
      let whole : length headers ≡ p + (length line + (2 + length more)) = omega (
        arith,
        ap length line_cut,
        length-append pre (line ++ 0x0D ∷ 0x0A ∷ more),
        length-append line (0x0D ∷ 0x0A ∷ more),
      ) in
      let cut : headers ≡ before ++ ((0x20 ∷ v) ++ 0x0D ∷ 0x0A ∷ more) =
        ap (λ t. pre ++ t) (sym (append_assoc k (0x3A ∷ []) _))
        ∙ sym (append_assoc pre (k ++ 0x3A ∷ []) _) in
      let found : find_char 0x3A (drop p headers) ≡ some n =
        ap (find_char 0x3A) (drop-length_append pre (k ++ 0x3A ∷ 0x20 ∷ (v ++ 0x0D ∷ 0x0A ∷ more)))
        ∙ find_char_lem k _ plain.key_colon in
      let key_size : p + n - p ≡ n = omega arith in
      let value_size : sub64 (sub64 (p + length line) (p + n)) 1 ≡ suc (length v) = omega arith in
      let value : substr headers (length before) (suc (length v)) ≡ 0x20 ∷ v =
        ap (λ t. substr t (length before) (suc (length v))) cut
        ∙ substr-append before (0x20 ∷ v) _ in
      add_line_at headers p (p + length line) n header k (0x20 ∷ v) k v found
        (ap (substr headers p) key_size ∙ substr-append pre k _)
        (ap (substr headers (p + n + 1)) value_size
          ∙ ap (λ t. substr headers t (suc (length v))) (sym at)
          ∙ value)
        (trim_self k plain.key_trimmed) (trim_value v plain.value_trimmed)

  size_lem : length headers ≡ length pre + (length line + (2 + length more))
  size_lem = omega (
    arith,
    ap length line_cut,
    length-append pre (line ++ 0x0D ∷ 0x0A ∷ more),
    length-append line (0x0D ∷ 0x0A ∷ more),
  )

  rest_cut : headers ≡ (pre ++ line) ++ 0x0D ∷ 0x0A ∷ more
  rest_cut = line_cut ∙ sym (append_assoc pre line (0x0D ∷ 0x0A ∷ more))

  -- The line ends that the round skips: those of this line, or all that follow the last one.
  next_line :
      (c : ℕ) (rest : List ℕ)
      → more ≡ c ∷ rest
      → is_line_end c ≡ false
      → skip_until (λ x. not (is_line_end x)) headers (length pre + length line)
        ≡ length pre + length line + 2
  next_line c rest e h =
      let stop : ℕ → Bool = λ x. not (is_line_end x) in
      let cut = rest_cut ∙ ap (λ t. (pre ++ line) ++ 0x0D ∷ 0x0A ∷ t) e in
      let (found, _, _) =
        field_lem stop headers (pre ++ line) (0x0D ∷ 0x0A ∷ []) c rest cut (refl, (refl, tt))
          (ap not h) in
      ap (skip_until stop headers) (sym (length-append pre line))
      ∙ found
      ∙ ap (λ t. t + 2) (length-append pre line)

  next_last :
      Passes (λ x. not (is_line_end x)) more
      → skip_until (λ x. not (is_line_end x)) headers (length pre + length line) ≡ length headers
  unfolding skip_until
  next_last p =
      let stop : ℕ → Bool = λ x. not (is_line_end x) in
      let tail = drop-length_append (pre ++ line) (0x0D ∷ 0x0A ∷ more) in
      let dropped : drop (length pre + length line) headers ≡ 0x0D ∷ 0x0A ∷ more =
        ap₂ drop (sym (length-append pre line)) rest_cut ∙ tail in
      ap (λ t. length pre + length line + rounds_until stop t) dropped
      ∙ ap (λ t. length pre + length line + t)
          (rounds_until_all stop (0x0D ∷ 0x0A ∷ more) (refl, (refl, p)))
      ∙ omega (arith, size_lem)

pub first_of :
    (xs : List ℕ)
    → IsTrimmed xs
    → Passes is_line_end xs
    → (c : ℕ) × (cs : List ℕ) × (xs ≡ c ∷ cs) × (is_line_end c ≡ false)
first_of [] (c, cs, _, _, e, _, _, _) p = absurd (omega (arith, ap length e))
first_of (x ∷ xs) t (h, p) = (x, xs, refl, h)

parse_round :
    (fuel start end next : ℕ) (headers : List ℕ) (header header' : HttpHeader)
    → start < length headers
    → skip_until is_line_end headers start ≡ end
    → add_line headers start end header ≡ header'
    → skip_until (λ c. not (is_line_end c)) headers end ≡ next
    → parse_rounds (suc fuel) headers start header ≡ parse_rounds fuel headers next header'
unfolding parse_rounds
parse_round fuel start end next headers header header' h e a n =
    let t : ltb start (length headers) ≡ true = grind arith in rw (t, e) (rw (a, n) refl)

parse_end :
    (fuel : ℕ) (headers : List ℕ) (header : HttpHeader)
    → parse_rounds (suc fuel) headers (length headers) header ≡ done header
unfolding parse_rounds
parse_end fuel headers header =
    let t : ltb (length headers) (length headers) ≡ false = grind arith in rw t refl

-- Over a whole text, behind `pre`.
parse_rounds_lem :
    (fuel : ℕ) (pre k v : List ℕ) (kvs header : HttpHeader)
    → length kvs < fuel
    → All IsPlain ((k, v) ∷ kvs)
    → length (pre ++ headers_text ((k, v) ∷ kvs)) < 2 ^ 64
    → parse_rounds (suc fuel) (pre ++ headers_text ((k, v) ∷ kvs)) (length pre) header
      ≡ done (header ++ (k, v) ∷ kvs)
unfolding headers_text
parse_rounds_lem zero pre k v kvs header h plain fits = absurd (omega arith)
parse_rounds_lem (suc fuel) pre k v [] header h (p, _) fits =
    let whole = pre ++ headers_text ((k, v) ∷ []) in
    let l = k ++ 0x3A ∷ 0x20 ∷ v in
    parse_round (suc fuel) (length pre) (length pre + length l) (length whole) whole header
      (header ++ (k, v) ∷ []) (omega (arith, size_lem pre k v _ p)) (line_end pre k v _ p)
      (add_line_lem pre k v _ p header fits) (next_last pre k v _ p (refl, (refl, tt)))
    ∙ parse_end fuel whole (header ++ (k, v) ∷ [])
parse_rounds_lem (suc fuel) pre k v ((k', v') ∷ kvs) header h (p, ps) fits =
    let (q, _) = ps in
    let rest = headers_text ((k', v') ∷ kvs) in
    let whole = pre ++ headers_text ((k, v) ∷ (k', v') ∷ kvs) in
    let l = k ++ 0x3A ∷ 0x20 ∷ v in
    let pre' = (pre ++ l) ++ 0x0D ∷ 0x0A ∷ [] in
    let cut : whole ≡ pre' ++ rest =
      rest_cut pre k v rest p ∙ sym (append_assoc (pre ++ l) (0x0D ∷ 0x0A ∷ []) rest) in
    let at : length pre' ≡ length pre + length l + 2 =
      omega (arith, length-append (pre ++ l) (0x0D ∷ 0x0A ∷ []), length-append pre l) in
    let (c, cs, e, not_end) = first_of k' q.key_trimmed q.key_line in
    let after =
      next_line pre k v rest p c _
        (ap (λ t. t ++ 0x3A ∷ 0x20 ∷ (v' ++ 0x0D ∷ 0x0A ∷ headers_text kvs)) e) not_end in
    let fits' : length (pre' ++ rest) < 2 ^ 64 = omega (arith, ap length cut) in
    parse_round (suc fuel) (length pre) (length pre + length l) (length pre + length l + 2) whole
      header (header ++ (k, v) ∷ []) (omega (arith, size_lem pre k v rest p))
      (line_end pre k v rest p) (add_line_lem pre k v rest p header fits) after
    ∙ ap₂ (λ t u. parse_rounds (suc fuel) t u (header ++ (k, v) ∷ [])) cut (sym at)
    ∙ parse_rounds_lem fuel pre' k' v' kvs (header ++ (k, v) ∷ []) (omega arith) ps fits'
    ∙ ap done (append_assoc header ((k, v) ∷ []) ((k', v') ∷ kvs))

enough_rounds : (header : HttpHeader) → length header < length (headers_text header)
unfolding headers_text
enough_rounds [] = omega arith
enough_rounds ((k, v) ∷ header) = omega (
  arith,
  enough_rounds header,
  length-append k (0x3A ∷ 0x20 ∷ (v ++ 0x0D ∷ 0x0A ∷ headers_text header)),
  length-append v (0x0D ∷ 0x0A ∷ headers_text header),
)

parse_nil : parse_headers (headers_text []) ≡ done []
unfolding parse_headers headers_text skip_until rounds_until add_line find_char
parse_nil = refl

-- The text that `encode` writes for headers, of less than 2 ^ 64 bytes, is what `parse_headers`
-- takes apart: each name is without colons, line ends and white space at its ends, each value
-- without line ends and white space at its ends.
pub parse_headers-headers_text :
    (header : HttpHeader)
    → All IsPlain header
    → length (headers_text header) < 2 ^ 64
    → parse_headers (headers_text header) ≡ done header
unfolding parse_headers
parse_headers-headers_text [] p fits = parse_nil
parse_headers-headers_text ((k, v) ∷ kvs) p fits =
    parse_rounds_lem (length (headers_text ((k, v) ∷ kvs))) [] k v kvs []
      (omega (arith, enough_rounds ((k, v) ∷ kvs))) p fits
