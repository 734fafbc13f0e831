-- ===== src/Common/Stoi.antt =====
-- What the program uses of the standard library for numbers in texts: `std::stoi`, which throws on a
-- text without a number and on a number out of range, and the decimal form that `std::format` writes.
pub mod Decimal
use uvio.Prelude.{
  ℕ, zero, suc, ◌+◌, ◌-◌, ◌*◌, ◌/◌, ◌%◌, ◌^◌, Bool, true, false, ◌&&◌, ◌||◌, List, [], ◌∷◌, ◌++◌,
  Option, none, some, leb, ltb, ◌==◌, if◌then◌else◌,
}
use uvio.Common.Result.{Run, done, fault}

-- The integers.
pub data ℤ : Type 0 where
  pos negsuc : ℕ → ℤ

abbrev pub is_digit : ℕ → Bool
is_digit c = leb 0x30 c && leb c 0x39

-- The digits at the front of a text, behind those that came to `seen`.
abbrev pub scan : Option ℕ → List ℕ → Option ℕ
scan seen [] = seen
scan none (c ∷ text) = let rest = scan (some (c - 0x30)) text in if is_digit c then rest else none
scan (some n) (c ∷ text) =
    let rest = scan (some (n * 10 + (c - 0x30))) text in if is_digit c then rest else some n

abbrev pub skip_space : List ℕ → List ℕ
skip_space [] = []
skip_space (c ∷ text) =
    let rest = skip_space text in
    if (c == 0x20) || (leb 0x09 c && leb c 0x0D) then rest else c ∷ text

abbrev pub in_range : Bool → Option ℕ → Run ℤ
in_range negative none = fault
in_range true (some zero) = done (pos 0)
in_range true (some (suc n)) = if ltb n (2 ^ 31) then done (negsuc n) else fault
in_range false (some n) = if ltb n (2 ^ 31) then done (pos n) else fault

abbrev pub signed : List ℕ → Run ℤ
signed [] = fault
signed (c ∷ text) =
    if c == 0x2D
    then in_range true (scan none text)
    else if c == 0x2B
    then in_range false (scan none text)
    else in_range false (scan none (c ∷ text))

unfoldable pub stoi : List ℕ → Run ℤ
stoi text = signed (skip_space text)

-- The digits of a number, with a round for each.
abbrev pub digits_rounds : ℕ → ℕ → List ℕ → List ℕ
digits_rounds zero n out = out
digits_rounds (suc fuel) n out =
    let out' = (0x30 + n % 10) ∷ out in
    let rest = digits_rounds fuel (n / 10) out' in if n / 10 == 0 then out' else rest

unfoldable pub to_string : ℕ → List ℕ
to_string n = digits_rounds (suc n) n []
