-- ===== src/Base/Bits.antt =====
-- `&` and `|` on words: bounds, and the sum that `|` is when the operands share no bit.
use Prim.Native.Nat.{
  ℕ, zero, suc, ◌+◌, ◌*◌, ◌/◌, ◌%◌, ◌^◌, ◌≤◌, ◌<◌, max, min, bit_or, bit_and, digits,
  bit_or-bitwise, bit_and-bitwise,
}
use mathlib.Core.Path.{◌≡◌, refl, ap}
use native.Mathlib.Nat.{pow-suc}
use native.Mathlib.Omega.{arith}

-- The recursion on binary digits that the native operations stand for: any fuel of at least the
-- first operand gives the same digits.
module _ (z : ℕ → ℕ) (f : ℕ → ℕ → ℕ) where
  digits_nil : (m n b : ℕ) → digits z f m zero b ≡ digits z f n zero b
  digits_nil zero zero b = refl
  digits_nil zero (suc n) b = refl
  digits_nil (suc m) zero b = refl
  digits_nil (suc m) (suc n) b = refl

  digits_enough : (m n a b : ℕ) → a ≤ m → a ≤ n → digits z f m a b ≡ digits z f n a b
  digits_enough m n zero b p q = digits_nil m n b
  digits_enough zero n (suc a) b p q = absurd (omega arith)
  digits_enough (suc m) zero (suc a) b p q = absurd (omega arith)
  digits_enough (suc m) (suc n) (suc a) b p q =
      let half = digits_enough m n (suc a / 2) (b / 2) (omega arith) (omega arith) in
      ap (λ d. d * 2 + f (suc a % 2) (b % 2)) half

  -- One digit at a time, with as much fuel as the operand itself.
  digits_unroll :
      (a b : ℕ)
      → digits z f (suc a) (suc a) b
        ≡ digits z f (suc a / 2) (suc a / 2) (b / 2) * 2 + f (suc a % 2) (b % 2)
  digits_unroll a b =
      ap (λ d. d * 2 + f (suc a % 2) (b % 2))
        (digits_enough a (suc a / 2) (suc a / 2) (b / 2) (omega arith) (omega arith))

-- The lowest digit of `x & y` and of `x | y`, and the rest of the digits.
bit_and_step : (x y : ℕ) → bit_and x y ≡ min (x % 2) (y % 2) + 2 * bit_and (x / 2) (y / 2)
bit_and_step zero y = simp bit_and-bitwise (omega arith)
bit_and_step (suc x) y =
    simp bit_and-bitwise (let unrolled = digits_unroll (λ _. 0) min x y in omega arith)

pub bit_or_step : (x y : ℕ) → bit_or x y ≡ max (x % 2) (y % 2) + 2 * bit_or (x / 2) (y / 2)
bit_or_step zero y = simp bit_or-bitwise (omega arith)
bit_or_step (suc x) y =
    simp bit_or-bitwise (let unrolled = digits_unroll (λ d. d) max x y in omega arith)

-- The `&` of two numbers is no larger than the first.
bit_and-le_fuel : (n a b : ℕ) → a ≤ n → bit_and a b ≤ a
bit_and-le_fuel n zero b h = omega (arith, bit_and-bitwise 0 b)
bit_and-le_fuel zero (suc a) b h = absurd (omega arith)
bit_and-le_fuel (suc n) (suc a) b h =
    omega (arith, bit_and_step (suc a) b, bit_and-le_fuel n (suc a / 2) (b / 2) (omega arith))

pub bit_and-le : (a b : ℕ) → bit_and a b ≤ a
bit_and-le a b = bit_and-le_fuel a a b (omega arith)

-- No digit is in common with 0.
no_digit : (rounds word : ℕ) → word ≤ rounds → bit_and word 0 ≡ 0
no_digit rounds zero small = omega (arith, bit_and-le 0 0)
no_digit zero (suc word) small = absurd (omega arith)
no_digit (suc rounds) (suc word) small =
    let halved = no_digit rounds (suc word / 2) (omega arith) in
    omega (arith, halved, bit_and_step (suc word) 0)

half_double : (x y : ℕ) → x ≡ 2 * y → x / 2 ≡ y
half_double x y e = omega arith

-- High bits and low bits have none in common.
pub bit_and-disjoint : (width high low : ℕ) → low < 2 ^ width → bit_and (high * 2 ^ width) low ≡ 0
bit_and-disjoint zero high low small =
    let none_left : low ≡ 0 = omega arith in
    rw none_left (no_digit (high * 2 ^ 0) (high * 2 ^ 0) (omega arith))
bit_and-disjoint (suc width) high low small =
    let word = high * 2 ^ width in
    let twice : high * 2 ^ suc width ≡ 2 * word =
      omega (arith, ap (λ (t : ℕ). high * t) (pow-suc 2 width)) in
    let halves =
      ap (λ (t : ℕ). bit_and t (low / 2)) (half_double (high * 2 ^ suc width) word twice) in
    let rest = bit_and-disjoint width high (low / 2) (omega (arith, pow-suc 2 width)) in
    omega (arith, twice, halves, rest, bit_and_step (high * 2 ^ suc width) low)

-- The `|` of two words is a word, at every width.
pub bit_or-lt : (k a b : ℕ) → a < 2 ^ k → b < 2 ^ k → bit_or a b < 2 ^ k
bit_or-lt zero a b p q =
    let a_zero : a ≡ 0 = omega arith in
    let b_zero : b ≡ 0 = omega arith in rw (a_zero, b_zero) (omega arith)
bit_or-lt (suc k) a b p q = omega (
  arith,
  bit_or_step a b,
  pow-suc 2 k,
  bit_or-lt k (a / 2) (b / 2) (omega (arith, pow-suc 2 k)) (omega (arith, pow-suc 2 k)),
)

-- Enough halvings reach zero.
bit_or-zero_fuel : (n a : ℕ) → a ≤ n → bit_or a 0 ≡ a
bit_or-zero_fuel n zero h = refl
bit_or-zero_fuel zero (suc a) h = absurd (omega arith)
bit_or-zero_fuel (suc n) (suc a) h =
    omega (arith, bit_or_step (suc a) 0, bit_or-zero_fuel n (suc a / 2) (omega arith))

-- High bits and low bits that do not overlap add up.
pub bit_or-disjoint : (k q r : ℕ) → r < 2 ^ k → bit_or (q * 2 ^ k) r ≡ q * 2 ^ k + r
bit_or-disjoint zero q r h =
    let r_zero : r ≡ 0 = omega arith in
    rw r_zero (omega (arith, bit_or-zero_fuel (q * 2 ^ 0) (q * 2 ^ 0) (omega arith)))
bit_or-disjoint (suc k) q r h =
    let double : q * 2 ^ suc k ≡ 2 * (q * 2 ^ k) =
      omega (arith, ap (λ (t : ℕ). q * t) (pow-suc 2 k)) in
    omega (
      arith,
      double,
      bit_or_step (q * 2 ^ suc k) r,
      ap (λ (t : ℕ). bit_or t (r / 2)) (half_double (q * 2 ^ suc k) (q * 2 ^ k) double),
      bit_or-disjoint k q (r / 2) (omega (arith, pow-suc 2 k)),
    )
