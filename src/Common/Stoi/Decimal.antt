-- ===== src/Common/Stoi/Decimal.antt =====
-- A number that is written in decimal is the number that `std::stoi` reads.
use uvio.Prelude.{
  ℕ, zero, suc, ◌+◌, ◌-◌, ◌*◌, ◌/◌, ◌%◌, ◌^◌, ◌<◌, ◌≤◌, ◌≡◌, refl, sym, ap, ◌∙◌, true, false, ◌&&◌,
  inl, inr, List, [], ◌∷◌, ◌++◌, none, some, All, append_assoc, ltb, leb, ◌==◌, arith, length,
  Bool-cases,
}
use uvio.Common.Result.{done}
use uvio.Common.Stoi.{
  pos, is_digit, scan, skip_space, in_range, signed, stoi, digits_rounds, to_string,
}

-- Digits only.
abbrev pub Digits : List ℕ → Type 0
Digits xs = All (λ c. (0x30 < suc c) × (c < 0x3A)) xs

digits_rounds-Digits : (fuel n : ℕ) (out : List ℕ) → Digits out → Digits (digits_rounds fuel n out)
digits_rounds-Digits zero n out h = h
digits_rounds-Digits (suc fuel) n out h =
    let now : Digits ((0x30 + n % 10) ∷ out) = ((omega arith, omega arith), h) in
    elim (Bool-cases (n / 10 == 0)) [
      | inl e ↦ rw e now
      | inr e ↦ rw e (digits_rounds-Digits fuel (n / 10) ((0x30 + n % 10) ∷ out) now)
    ]

pub to_string-Digits : (n : ℕ) → Digits (to_string n)
unfolding to_string
to_string-Digits n = digits_rounds-Digits (suc n) n [] tt

-- The text begins with a character, and ends with the last digit.
digits_rounds-cons :
    (fuel n c : ℕ) (out : List ℕ)
    → (d : ℕ) × (rest : List ℕ) × (digits_rounds fuel n (c ∷ out) ≡ d ∷ rest)
digits_rounds-cons zero n c out = (c, out, refl)
digits_rounds-cons (suc fuel) n c out = elim (Bool-cases (n / 10 == 0)) [
  | inl e ↦ (0x30 + n % 10, c ∷ out, rw e refl)
  | inr e ↦
      let (d, rest, h) = digits_rounds-cons fuel (n / 10) (0x30 + n % 10) (c ∷ out) in
      (d, rest, rw e h)
]

digits_rounds-snoc :
    (fuel n : ℕ) (out : List ℕ) → (ds : List ℕ) × (digits_rounds fuel n out ≡ ds ++ out)
digits_rounds-snoc zero n out = ([], refl)
digits_rounds-snoc (suc fuel) n out = elim (Bool-cases (n / 10 == 0)) [
  | inl e ↦ ((0x30 + n % 10) ∷ [], rw e refl)
  | inr e ↦
      let (ds, h) = digits_rounds-snoc fuel (n / 10) ((0x30 + n % 10) ∷ out) in
      (ds ++ (0x30 + n % 10) ∷ [], rw e (h ∙ sym (append_assoc ds ((0x30 + n % 10) ∷ []) out)))
]

pub to_string-cons : (n : ℕ) → (d : ℕ) × (rest : List ℕ) × (to_string n ≡ d ∷ rest)
unfolding to_string
to_string-cons n = elim (Bool-cases (n / 10 == 0)) [
  | inl e ↦ (0x30 + n % 10, [], rw e refl)
  | inr e ↦ let (d, rest, h) = digits_rounds-cons n (n / 10) (0x30 + n % 10) [] in (d, rest, rw e h)
]

pub to_string-snoc : (n : ℕ) → (ds : List ℕ) × (d : ℕ) × (to_string n ≡ ds ++ d ∷ [])
unfolding to_string
to_string-snoc n = elim (Bool-cases (n / 10 == 0)) [
  | inl e ↦ ([], 0x30 + n % 10, rw e refl)
  | inr e ↦
      let (ds, h) = digits_rounds-snoc n (n / 10) ((0x30 + n % 10) ∷ []) in
      (ds, 0x30 + n % 10, rw e h)
]

digit_step : (n : ℕ) → (is_digit (0x30 + n % 10) ≡ true) × (0x30 + n % 10 - 0x30 ≡ n % 10)
digit_step n = (grind arith, omega arith)

scan-digits_rounds :
    (fuel n : ℕ) (out : List ℕ)
    → n < fuel
    → scan none (digits_rounds fuel n out) ≡ scan (some n) out
scan-digits_rounds zero n out h = absurd (omega arith)
scan-digits_rounds (suc fuel) n out h =
    let (digit, value) = digit_step n in
    elim (Bool-cases (n / 10 == 0)) [
      | inl e ↦ let small : n % 10 ≡ n = grind arith in rw e (rw (digit, value, small) refl)
      | inr e ↦
          let whole : n / 10 * 10 + n % 10 ≡ n = omega arith in
          let less : n / 10 < fuel = grind arith in
          rw e (
            scan-digits_rounds fuel (n / 10) ((0x30 + n % 10) ∷ out) less
            ∙ rw (digit, value, whole) refl)
    ]

starts_with_digit :
    (d : ℕ) (rest : List ℕ)
    → Digits (d ∷ rest)
    → signed (skip_space (d ∷ rest)) ≡ in_range false (scan none (d ∷ rest))
starts_with_digit d rest ((low, high), _) =
    let a : (d == 0x20) ≡ false = grind arith in
    let b : (leb 0x09 d && leb d 0x0D) ≡ false = grind arith in
    let m : (d == 0x2D) ≡ false = grind arith in
    let p : (d == 0x2B) ≡ false = grind arith in rw (a, b) (rw (m, p) refl)

scan-to_string : (n : ℕ) → scan none (to_string n) ≡ some n
unfolding to_string
scan-to_string n = scan-digits_rounds (suc n) n [] (omega arith)

-- `std::stoi` of the decimal form of a number below 2 ^ 31 is that number.
pub stoi-to_string : (n : ℕ) → n < 2 ^ 31 → stoi (to_string n) ≡ done (pos n)
unfolding stoi
stoi-to_string n h =
    let (d, rest, e) = to_string-cons n in
    let t : ltb n (2 ^ 31) ≡ true = grind arith in
    let all : Digits (d ∷ rest) = rw e at (to_string-Digits n) in
    ap (λ t. signed (skip_space t)) e
    ∙ starts_with_digit d rest all
    ∙ ap (λ t. in_range false (scan none t)) (sym e)
    ∙ ap (in_range false) (scan-to_string n)
    ∙ rw t refl

length-digits_rounds :
    (fuel n : ℕ) (out : List ℕ) → length (digits_rounds fuel n out) ≤ fuel + length out
length-digits_rounds zero n out = omega arith
length-digits_rounds (suc fuel) n out =
    let next = length-digits_rounds fuel (n / 10) ((0x30 + n % 10) ∷ out) in
    elim (Bool-cases (n / 10 == 0)) [ inl e ↦ rw e (omega arith) | inr e ↦ rw e (omega arith) ]

pub length-to_string : (n : ℕ) → length (to_string n) ≤ n + 1
unfolding to_string
length-to_string n = omega (arith, length-digits_rounds (suc n) n [])
