-- ===== src/Prelude/Bits.antt =====
-- The bitwise `|` with flags below a shifted number, as in a page table entry.
use Prim.Native.Nat.{max, digits, bit_or, bit_or-bitwise}
use Prim.Native.Nat.{ℕ, zero, suc, ◌+◌, ◌*◌, ◌/◌, ◌%◌, ◌^◌, ◌≤◌, ◌<◌}
use mathlib.Core.Path.{◌≡◌, refl, ap, ◌∙◌}
use native.Mathlib.Omega.{arith}

abbrev or_digits : ℕ → ℕ → ℕ → ℕ
or_digits n a b = digits (λ b. b) max n a b

or_digits_fuel : (n m a b : ℕ) → a ≤ n → a ≤ m → or_digits n a b ≡ or_digits m a b
or_digits_fuel zero zero a b p q = refl
or_digits_fuel zero (suc m) zero b p q = refl
or_digits_fuel zero (suc m) (suc a) b p q = absurd (omega arith)
or_digits_fuel (suc n) zero zero b p q = refl
or_digits_fuel (suc n) zero (suc a) b p q = absurd (omega arith)
or_digits_fuel (suc n) (suc m) zero b p q = refl
or_digits_fuel (suc n) (suc m) (suc a) b p q =
    omega (arith, or_digits_fuel n m (suc a / 2) (b / 2) (omega arith) (omega arith))

pub zero-bit_or : (b : ℕ) → bit_or 0 b ≡ b
zero-bit_or b = bit_or-bitwise 0 b

-- The lowest digit apart.
pub bit_or_step : (a b : ℕ) → bit_or a b ≡ bit_or (a / 2) (b / 2) * 2 + max (a % 2) (b % 2)
bit_or_step zero b = omega (arith, zero-bit_or b, zero-bit_or (b / 2))
bit_or_step (suc a) b = omega (
  arith,
  bit_or-bitwise (suc a) b,
  bit_or-bitwise (suc a / 2) (b / 2),
  or_digits_fuel a (suc a / 2) (suc a / 2) (b / 2) (omega arith) (omega arith),
)

bit_or-zero_fuel : (n a : ℕ) → a ≤ n → bit_or a 0 ≡ a
bit_or-zero_fuel n zero h = refl
bit_or-zero_fuel zero (suc a) h = absurd (omega arith)
bit_or-zero_fuel (suc n) (suc a) h =
    omega (arith, bit_or_step (suc a) 0, bit_or-zero_fuel n (suc a / 2) (omega arith))

pub bit_or-zero : (a : ℕ) → bit_or a 0 ≡ a
bit_or-zero a = bit_or-zero_fuel a a (omega arith)

-- Setting the lowest bit.
pub bit_or-one : (a : ℕ) → bit_or a 1 ≡ a / 2 * 2 + 1
bit_or-one a = omega (arith, bit_or_step a 1, bit_or-zero (a / 2))

double-bit_or : (a b : ℕ) → bit_or (a * 2) b ≡ bit_or a (b / 2) * 2 + b % 2
double-bit_or a b =
    let e : a * 2 / 2 ≡ a = omega arith in bit_or_step (a * 2) b ∙ rw e (omega arith)

double : (k : ℕ) → 2 ^ suc k ≡ 2 ^ k * 2
double k = omega arith

-- A number below the lowest bit of another.
pub bit_or_high : (k a b : ℕ) → b < 2 ^ k → bit_or (a * 2 ^ k) b ≡ a * 2 ^ k + b
bit_or_high zero a b h =
    let one : a * 1 ≡ a = omega arith in
    let none : b ≡ 0 = omega arith in
    ap (bit_or (a * 1)) none ∙ omega (arith, ap (λ x. bit_or x 0) one, bit_or-zero a)
bit_or_high (suc k) a b h =
    let e : a * 2 ^ suc k ≡ a * 2 ^ k * 2 = ap (λ x. a * x) (double k) ∙ omega arith in
    ap (λ x. bit_or x b) e
    ∙ omega
        (arith, double-bit_or (a * 2 ^ k) b, bit_or_high k a (b / 2) (omega (arith, double k)), e)

-- Ten bits of flags under a page number.
pub bit_or_flags : (a b : ℕ) → b < 2 ^ 10 → bit_or (a * 2 ^ 10) b ≡ a * 2 ^ 10 + b
bit_or_flags a b h = bit_or_high 10 a b h
