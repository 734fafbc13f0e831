-- ===== src/Prelude/Bits.antt =====
-- The bit operations at variables: one equation for the lowest digit of each, then masks as
-- remainders and the disjoint union of fields as a sum, at every width.
use Prim.Native.Nat.{
  ℕ, zero, suc, ◌+◌, ◌-◌, ◌*◌, ◌/◌, ◌%◌, ◌^◌, ◌≤◌, ◌<◌, min, max, bit_and, bit_or, bit_xor, differ,
  digits, bitwise, bit_and-bitwise, bit_or-bitwise, bit_xor-bitwise,
}
use mathlib.Core.Path.{◌≡◌, refl, ap, ◌∙◌}
use native.Mathlib.Nat.{pow-suc, one-le-pow, div-div-eq-div-mul}
use native.Mathlib.Omega.{arith}

-- Any two amounts of fuel that cover the left number give the same digits.
module _ (rest : ℕ → ℕ) (digit : ℕ → ℕ → ℕ) where
  digits_enough : (f g a b : ℕ) → a ≤ f → a ≤ g → digits rest digit f a b ≡ digits rest digit g a b
  digits_enough zero zero a b p q = refl
  digits_enough zero (suc g) zero b p q = refl
  digits_enough (suc f) zero zero b p q = refl
  digits_enough (suc f) (suc g) zero b p q = refl
  digits_enough zero (suc g) (suc a) b p q = absurd (omega arith)
  digits_enough (suc f) zero (suc a) b p q = absurd (omega arith)
  digits_enough (suc f) (suc g) (suc a) b p q =
      ap (λ (t : ℕ). t * 2 + digit (suc a % 2) (b % 2))
        (digits_enough f g (suc a / 2) (b / 2) (omega arith) (omega arith))

  bitwise_digit :
      (a b : ℕ)
      → bitwise rest digit (suc a) b
        ≡ bitwise rest digit (suc a / 2) (b / 2) * 2 + digit (suc a % 2) (b % 2)
  bitwise_digit a b =
      ap (λ (t : ℕ). t * 2 + digit (suc a % 2) (b % 2))
        (digits_enough a (suc a / 2) (suc a / 2) (b / 2) (omega arith) (omega arith))

pub bit_and_digit : (a b : ℕ) → bit_and a b ≡ bit_and (a / 2) (b / 2) * 2 + min (a % 2) (b % 2)
bit_and_digit zero b = simp bit_and-bitwise (omega arith)
bit_and_digit (suc a) b = simp bit_and-bitwise (bitwise_digit (λ y. 0) min a b)

pub bit_or_digit : (a b : ℕ) → bit_or a b ≡ bit_or (a / 2) (b / 2) * 2 + max (a % 2) (b % 2)
bit_or_digit zero b = simp bit_or-bitwise (omega arith)
bit_or_digit (suc a) b = simp bit_or-bitwise (bitwise_digit (λ y. y) max a b)

pub zero-bit_or : (a : ℕ) → bit_or 0 a ≡ a
zero-bit_or a = bit_or-bitwise 0 a

zero-bit_and : (a : ℕ) → bit_and 0 a ≡ 0
zero-bit_and a = bit_and-bitwise 0 a

bit_and-zero_below : (n a : ℕ) → a ≤ n → bit_and a 0 ≡ 0
bit_and-zero_below n zero h = refl
bit_and-zero_below zero (suc a) h = absurd (omega arith)
bit_and-zero_below (suc n) (suc a) h =
    omega (arith, bit_and_digit (suc a) 0, bit_and-zero_below n (suc a / 2) (omega arith))

double_shift : (q k : ℕ) → q * 2 ^ suc k ≡ 2 * (q * 2 ^ k)
double_shift q k = omega (arith, ap (λ (t : ℕ). q * t) (pow-suc 2 k))

-- A low field joined with a field shifted past it is their sum.
pub bit_or_shifted : (k low high : ℕ) → low < 2 ^ k → bit_or low (high * 2 ^ k) ≡ low + high * 2 ^ k
bit_or_shifted zero low high h = ground (arith, zero-bit_or (high * 1))
bit_or_shifted (suc k) low high h = ground (
  arith,
  bit_or_digit low (high * 2 ^ suc k),
  double_shift high k,
  pow-suc 2 k,
  bit_or_shifted k (low / 2) high (omega arith),
)

low_field : (k high low : ℕ) → low < 2 ^ k → bit_and (high * 2 ^ k + low) (2 ^ k - 1) ≡ low
low_field zero high low h =
    omega (arith, bit_and-zero_below (high * 1 + low) (high * 1 + low) (omega arith))
low_field (suc k) high low h = ground (
  arith,
  bit_and_digit (high * 2 ^ suc k + low) (2 ^ suc k - 1),
  double_shift high k,
  pow-suc 2 k,
  one-le-pow k 2,
  low_field k high (low / 2) (omega arith),
)

-- A mask of `k` low bits is the remainder by `2 ^ k`.
pub bit_and_mask : (k a : ℕ) → bit_and a (2 ^ k - 1) ≡ a % 2 ^ k
bit_and_mask k a = ground (arith, one-le-pow k 2, low_field k (a / 2 ^ k) (a % 2 ^ k))

-- A shifted mask acts on the field that it covers.
pub bit_and_shifted : (k a m : ℕ) → bit_and a (m * 2 ^ k) ≡ bit_and (a / 2 ^ k) m * 2 ^ k
bit_and_shifted zero a m =
    let e : m * 2 ^ 0 ≡ m = omega arith in
    let e' : a / 2 ^ 0 ≡ a = omega arith in rw (e, e') (omega arith)
bit_and_shifted (suc k) a m = ground (
  arith,
  bit_and_digit a (m * 2 ^ suc k),
  double_shift m k,
  pow-suc 2 k,
  double_shift (bit_and (a / 2 ^ suc k) m) k,
  bit_and_shifted k (a / 2) m,
  div-div-eq-div-mul a 2 (2 ^ k),
)

bit_xor_digit : (a b : ℕ) → bit_xor a b ≡ bit_xor (a / 2) (b / 2) * 2 + differ (a % 2) (b % 2)
bit_xor_digit zero b = simp bit_xor-bitwise (omega arith)
bit_xor_digit (suc a) b = simp bit_xor-bitwise (bitwise_digit (λ y. y) differ a b)

differ_twice : (x y : ℕ) → x < 2 → y < 2 → (differ (differ x y) y ≡ x) × (differ x y < 2)
differ_twice zero zero hx hy = (refl, omega arith)
differ_twice zero (suc zero) hx hy = (refl, omega arith)
differ_twice (suc zero) zero hx hy = (refl, omega arith)
differ_twice (suc zero) (suc zero) hx hy = (refl, omega arith)
differ_twice (suc (suc x)) y hx hy = absurd (omega arith)
differ_twice zero (suc (suc y)) hx hy = absurd (omega arith)
differ_twice (suc zero) (suc (suc y)) hx hy = absurd (omega arith)

bit_xor_twice_below : (n a b : ℕ) → a ≤ n → b ≤ n → bit_xor (bit_xor a b) b ≡ a
bit_xor_twice_below zero zero zero ha hb = refl
bit_xor_twice_below zero (suc a) b ha hb = absurd (omega arith)
bit_xor_twice_below zero zero (suc b) ha hb = absurd (omega arith)
bit_xor_twice_below (suc n) a b ha hb =
    let c = bit_xor (a / 2) (b / 2) in
    let (digit, small) = differ_twice (a % 2) (b % 2) (omega arith) (omega arith) in
    let e : bit_xor a b ≡ c * 2 + differ (a % 2) (b % 2) = bit_xor_digit a b in
    let halves : bit_xor a b / 2 ≡ c = omega arith in
    let odd : bit_xor a b % 2 ≡ differ (a % 2) (b % 2) = omega arith in
    let high = bit_xor_twice_below n (a / 2) (b / 2) (omega arith) (omega arith) in
    bit_xor_digit (bit_xor a b) b ∙ rw (halves, odd, high, digit) (omega arith)

-- The exclusive or with one number undoes itself.
pub bit_xor_twice : (a b : ℕ) → bit_xor (bit_xor a b) b ≡ a
bit_xor_twice a b = bit_xor_twice_below (a + b) a b (omega arith) (omega arith)

bit_or_comm_below : (n a b : ℕ) → a ≤ n → b ≤ n → bit_or a b ≡ bit_or b a
bit_or_comm_below zero zero zero ha hb = refl
bit_or_comm_below zero (suc a) b ha hb = absurd (omega arith)
bit_or_comm_below zero zero (suc b) ha hb = absurd (omega arith)
bit_or_comm_below (suc n) a b ha hb = omega (
  arith,
  bit_or_digit a b,
  bit_or_digit b a,
  bit_or_comm_below n (a / 2) (b / 2) (omega arith) (omega arith),
)

pub bit_or_comm : (a b : ℕ) → bit_or a b ≡ bit_or b a
bit_or_comm a b = bit_or_comm_below (a + b) a b (omega arith) (omega arith)

-- Two fields of which one has `low` beneath it.
pub bit_or_above :
    (k a b low : ℕ) → low < 2 ^ k → bit_or (a * 2 ^ k) (b * 2 ^ k + low) ≡ bit_or a b * 2 ^ k + low
bit_or_above zero a b low h =
    let e : a * 2 ^ 0 ≡ a = omega arith in
    let e' : b * 2 ^ 0 + low ≡ b = omega arith in rw (e, e') (omega arith)
bit_or_above (suc k) a b low h = ground (
  arith,
  bit_or_digit (a * 2 ^ suc k) (b * 2 ^ suc k + low),
  double_shift a k,
  double_shift b k,
  double_shift (bit_or a b) k,
  pow-suc 2 k,
  bit_or_above k a b (low / 2) (omega arith),
)

-- Ones absorb what fits under them.
pub bit_or_ones : (k a : ℕ) → a < 2 ^ k → bit_or a (2 ^ k - 1) ≡ 2 ^ k - 1
bit_or_ones zero zero h = refl
bit_or_ones zero (suc a) h = absurd (omega arith)
bit_or_ones (suc k) a h = ground (
  arith,
  bit_or_digit a (2 ^ suc k - 1),
  pow-suc 2 k,
  one-le-pow k 2,
  bit_or_ones k (a / 2) (omega arith),
)
