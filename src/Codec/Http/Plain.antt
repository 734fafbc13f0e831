-- ===== src/Codec/Http/Plain.antt =====
-- Tests for headers that come through, which a concrete list of headers is run through.
use uvio.Prelude.{
  ℕ, ◌≡◌, refl, ap, inr, Bool, true, false, not, ◌&&◌, List, [], ◌∷◌, ◌++◌, All, ◌==◌,
}
use uvio.Codec.Http.{is_line_end, is_space, HttpHeader}
use uvio.Codec.Http.Line.{Passes}
use uvio.Codec.Http.Headers.{IsTrimmed, IsPlain}

abbrev pub passes : (ℕ → Bool) → List ℕ → Bool
passes stop [] = true
passes stop (x ∷ xs) = not (stop x) && passes stop xs

-- Whether there is a last element, and it is no white space.
abbrev ends_black : List ℕ → Bool
ends_black [] = false
ends_black (x ∷ []) = not (is_space x)
ends_black (x ∷ y ∷ xs) = ends_black (y ∷ xs)

abbrev pub is_trimmed : List ℕ → Bool
is_trimmed [] = false
is_trimmed (x ∷ xs) = not (is_space x) && ends_black (x ∷ xs)

abbrev pub is_plain : List ℕ × List ℕ → Bool
is_plain (k, v) =
    is_trimmed k
    && (passes (λ c. c == 0x3A) k
        && (passes is_line_end k && (is_trimmed v && passes is_line_end v)))

both : (a b : Bool) → (a && b) ≡ true → (a ≡ true) × (b ≡ true)
both true b e = (refl, e)
both false b e = absurd (cc e)

untrue : (a : Bool) → not a ≡ true → a ≡ false
untrue true e = absurd (cc e)
untrue false e = refl

pub passes-Passes : (stop : ℕ → Bool) (xs : List ℕ) → passes stop xs ≡ true → Passes stop xs
passes-Passes stop [] e = tt
passes-Passes stop (x ∷ xs) e =
    let (h, t) = both (not (stop x)) (passes stop xs) e in
    (untrue (stop x) h, passes-Passes stop xs t)

last_black :
    (x : ℕ) (xs : List ℕ)
    → ends_black (x ∷ xs) ≡ true
    → (ds : List ℕ) × (d : ℕ) × (x ∷ xs ≡ ds ++ d ∷ []) × (is_space d ≡ false)
last_black x [] e = ([], x, refl, untrue (is_space x) e)
last_black x (y ∷ xs) e =
    let (ds, d, same, h) = last_black y xs e in (x ∷ ds, d, ap (λ t. x ∷ t) same, h)

pub is_trimmed-IsTrimmed : (xs : List ℕ) → is_trimmed xs ≡ true → IsTrimmed xs
is_trimmed-IsTrimmed [] e = absurd (cc e)
is_trimmed-IsTrimmed (x ∷ xs) e =
    let (h, t) = both (not (is_space x)) (ends_black (x ∷ xs)) e in
    let (ds, d, same, hd) = last_black x xs t in
    (x, xs, ds, d, refl, same, untrue (is_space x) h, hd)

pub is_plain-IsPlain : (kv : List ℕ × List ℕ) → is_plain kv ≡ true → IsPlain kv
is_plain-IsPlain (k, v) e =
    let (h1, t1) = both (is_trimmed k) _ e in
    let (h2, t2) = both (passes (λ c. c == 0x3A) k) _ t1 in
    let (h3, t3) = both (passes is_line_end k) _ t2 in
    let (h4, h5) = both (is_trimmed v) (passes is_line_end v) t3 in
    record {
      key_trimmed = is_trimmed-IsTrimmed k h1;
      key_colon = passes-Passes (λ c. c == 0x3A) k h2;
      key_line = passes-Passes is_line_end k h3;
      value_trimmed = inr (is_trimmed-IsTrimmed v h4);
      value_line = passes-Passes is_line_end v h5;
    }

abbrev pub all_plain : HttpHeader → Bool
all_plain [] = true
all_plain (kv ∷ header) = is_plain kv && all_plain header

pub all_plain-IsPlain : (header : HttpHeader) → all_plain header ≡ true → All IsPlain header
all_plain-IsPlain [] e = tt
all_plain-IsPlain (kv ∷ header) e =
    let (h, t) = both (is_plain kv) (all_plain header) e in
    (is_plain-IsPlain kv h, all_plain-IsPlain header t)
