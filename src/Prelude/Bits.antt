-- ===== src/Prelude/Bits.antt =====
-- Exclusive or with 4 as arithmetic: it turns the digit of weight 4 over.
use Prim.Native.Nat.{
  ℕ, zero, suc, ◌+◌, ◌*◌, ◌/◌, ◌%◌, ◌≤◌, ◌<◌, bit_xor, digits, differ, bit_xor-bitwise,
}
use mathlib.Core.Path.{◌≡◌, refl}
use mathlib.Core.Logic.{◌⊎◌}
use native.Mathlib.Omega.{arith}

abbrev xor_digits : ℕ → ℕ → ℕ → ℕ
xor_digits n a b = digits (λ b. b) differ n a b

-- More rounds than the first number has digits change nothing.
xor_digits_rounds : (n m a b : ℕ) → a ≤ n → a ≤ m → xor_digits n a b ≡ xor_digits m a b
xor_digits_rounds zero zero a b p q = refl
xor_digits_rounds zero (suc m) zero b p q = refl
xor_digits_rounds zero (suc m) (suc a) b p q = absurd (omega arith)
xor_digits_rounds (suc n) zero zero b p q = refl
xor_digits_rounds (suc n) zero (suc a) b p q = absurd (omega arith)
xor_digits_rounds (suc n) (suc m) zero b p q = refl
xor_digits_rounds (suc n) (suc m) (suc a) b p q =
    omega (arith, xor_digits_rounds n m (suc a / 2) (b / 2) (omega arith) (omega arith))

zero-bit_xor : (b : ℕ) → bit_xor 0 b ≡ b
zero-bit_xor b = bit_xor-bitwise 0 b

bit_xor_step : (a b : ℕ) → bit_xor a b ≡ bit_xor (a / 2) (b / 2) * 2 + differ (a % 2) (b % 2)
bit_xor_step zero b = omega (arith, zero-bit_xor b, zero-bit_xor (b / 2))
bit_xor_step (suc a) b = omega (
  arith,
  bit_xor-bitwise (suc a) b,
  bit_xor-bitwise (suc a / 2) (b / 2),
  xor_digits_rounds a (suc a / 2) (suc a / 2) (b / 2) (omega arith) (omega arith),
)

-- The digit of the sum, where the second number's is 0 or 1.
differ-zero : (x : ℕ) → x < 2 → differ x 0 ≡ x
differ-zero zero h = refl
differ-zero (suc zero) h = refl
differ-zero (suc (suc x)) h = absurd (omega arith)

differ-one : (x : ℕ) → x < 2 → differ x 1 + x ≡ 1
differ-one zero h = refl
differ-one (suc zero) h = refl
differ-one (suc (suc x)) h = absurd (omega arith)

bit_xor-zero_rounds : (n a : ℕ) → a ≤ n → bit_xor a 0 ≡ a
bit_xor-zero_rounds n zero h = refl
bit_xor-zero_rounds zero (suc a) h = absurd (omega arith)
bit_xor-zero_rounds (suc n) (suc a) h = omega (
  arith,
  bit_xor_step (suc a) 0,
  bit_xor-zero_rounds n (suc a / 2) (omega arith),
  differ-zero (suc a % 2) (omega arith),
)

pub bit_xor_four :
    (a : ℕ) → ((a / 4 % 2 ≡ 0) × (bit_xor a 4 ≡ a + 4)) ⊎ ((a / 4 % 2 ≡ 1) × (bit_xor a 4 + 4 ≡ a))
bit_xor_four a = omega (
  arith,
  bit_xor_step a 4,
  bit_xor_step (a / 2) 2,
  bit_xor_step (a / 2 / 2) 1,
  bit_xor-zero_rounds (a / 2 / 2 / 2) (a / 2 / 2 / 2) (omega arith),
  differ-zero (a % 2) (omega arith),
  differ-zero (a / 2 % 2) (omega arith),
  differ-one (a / 2 / 2 % 2) (omega arith),
)
