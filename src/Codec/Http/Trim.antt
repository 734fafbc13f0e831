-- ===== src/Codec/Http/Trim.antt =====
-- `HttpCodec::trim`: what is left is what stands between the white space.
use uvio.Prelude.{
  ℕ, zero, suc, ◌+◌, ◌-◌, ◌<◌, ◌≤◌, ◌≡◌, refl, sym, ap, ◌∙◌, Bool, true, false, not, ◌&&◌, List, [],
  ◌∷◌, ◌++◌, append_assoc, length, ltb, arith, length-append, take-nil, drop_all,
}
use uvio.Codec.Http.{char_at, is_space, rounds_until, skip_until, trim_end, trim}
use uvio.Codec.Http.Line.{Passes, rounds_until_lem, rounds_until_all, char_at-append, substr-append}

-- White space only.
abbrev pub Blank : List ℕ → Type 0
Blank xs = Passes (λ c. not (is_space c)) xs

space_of_not : (b : Bool) → not b ≡ false → b ≡ true
space_of_not true h = refl
space_of_not false h = sym h

Blank-char_at :
    (a post : List ℕ) (k : ℕ)
    → Blank post
    → k < length post
    → is_space (char_at (a ++ post) (length a + k)) ≡ true
Blank-char_at [] [] k b h = absurd (omega arith)
Blank-char_at [] (x ∷ post) zero (q, b) h = space_of_not (is_space x) q
Blank-char_at [] (x ∷ post) (suc k) (q, b) h =
    let e : 0 + suc k ≡ suc (0 + k) = omega arith in rw e (Blank-char_at [] post k b (omega arith))
Blank-char_at (y ∷ a) post k b h =
    let e : suc (length a) + k ≡ suc (length a + k) = omega arith in
    rw e (Blank-char_at a post k b h)

-- The second loop runs back over the white space behind `a`.
trim_end-Blank :
    (a post : List ℕ) (start k : ℕ)
    → Blank post
    → start ≤ length a
    → k ≤ length post
    → trim_end (a ++ post) start (length a + k) ≡ trim_end (a ++ post) start (length a)
unfolding trim_end
trim_end-Blank a post start zero b s h = ap (trim_end (a ++ post) start) (omega arith)
trim_end-Blank a post start (suc k) b s h =
    let e : length a + suc k ≡ suc (length a + k) = omega arith in
    let t : ltb start (suc (length a + k)) ≡ true = grind arith in
    rw (e, trim_end)
      (rw (t, Blank-char_at a post k b (omega arith))
        (trim_end-Blank a post start k b s (omega arith)))

and-false : (b : Bool) → (b && false) ≡ false
and-false true = refl
and-false false = refl

trim_end_stops :
    (a more : List ℕ) (d start : ℕ)
    → is_space d ≡ false
    → trim_end (a ++ d ∷ more) start (suc (length a)) ≡ suc (length a)
unfolding trim_end
trim_end_stops a more d start h =
    rw (char_at-append a d more, h, and-false (ltb start (suc (length a)))) refl

-- `trim` of white space, and of characters that begin and end with none, within white space.
pub trim-Blank : (xs : List ℕ) → Blank xs → trim xs ≡ []
unfolding trim skip_until
trim-Blank xs b =
    let e : 0 + length xs ≡ length xs = omega arith in
    rw (rounds_until_all (λ c. not (is_space c)) xs b, e, drop_all (length xs) xs (omega arith))
      (take-nil _)

pub trim_lem :
    (pre cs ds post : List ℕ) (c d : ℕ)
    → Blank pre
    → Blank post
    → is_space c ≡ false
    → is_space d ≡ false
    → c ∷ cs ≡ ds ++ d ∷ []
    → trim (pre ++ (c ∷ cs ++ post)) ≡ c ∷ cs
unfolding trim skip_until
trim_lem pre cs ds post c d bp bq hc hd e =
    let core = c ∷ cs in
    let str = pre ++ (core ++ post) in
    let start = length pre in
    let stop : ℕ → Bool = λ x. not (is_space x) in
    let stops : stop c ≡ true = ap not hc in
    let first : 0 + rounds_until stop str ≡ start =
      omega (arith, rounds_until_lem stop pre c (cs ++ post) bp stops) in
    let front : str ≡ (pre ++ core) ++ post = sym (append_assoc pre core post) in
    let ends : pre ++ core ≡ (pre ++ ds) ++ d ∷ [] =
      ap (λ t. pre ++ t) e ∙ sym (append_assoc pre ds (d ∷ [])) in
    let back : str ≡ (pre ++ ds) ++ d ∷ post =
      front ∙ ap (λ t. t ++ post) ends ∙ append_assoc (pre ++ ds) (d ∷ []) post in
    let total : length str ≡ length (pre ++ core) + length post =
      ap length front ∙ length-append (pre ++ core) post in
    let size : length (pre ++ core) ≡ suc (length (pre ++ ds)) =
      omega (arith, ap length ends, length-append (pre ++ ds) (d ∷ [])) in
    let kept =
      trim_end-Blank (pre ++ core) post start (length post) bq
        (omega (arith, length-append pre core)) (omega arith) in
    let stopped = trim_end_stops (pre ++ ds) post d start hd in
    let last : trim_end str start (length str) ≡ length (pre ++ core) =
      ap (trim_end str start) total
      ∙ ap (λ t. trim_end t start (length (pre ++ core) + length post)) front
      ∙ kept
      ∙ ap (λ t. trim_end t start (length (pre ++ core))) (sym front ∙ back)
      ∙ ap (trim_end ((pre ++ ds) ++ d ∷ post) start) size
      ∙ stopped
      ∙ sym size in
    let width : length (pre ++ core) - start ≡ length core =
      omega (arith, length-append pre core) in
    rw (first, last, width) (substr-append pre core post)
