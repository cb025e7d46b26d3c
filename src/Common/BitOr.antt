-- ===== src/Common/BitOr.antt =====
-- When an inclusive or an exclusive or of numbers is zero.
use Prim.Native.Nat.{
  ℕ, zero, suc, ◌+◌, ◌*◌, ◌/◌, ◌%◌, ◌≤◌, bit_xor, bit_or, max, digits, bit_or-bitwise,
}
use mathlib.Core.Path.{◌≡◌, refl}
use native.Mathlib.Omega.{arith}
use daphne.Common.Bits.{bit_xor_step, zero-bit_xor}

abbrev or_digits : ℕ → ℕ → ℕ → ℕ
or_digits n a b = digits (λ b. b) max n a b

or_digits_fuel : (n m a b : ℕ) → a ≤ n → a ≤ m → or_digits n a b ≡ or_digits m a b
or_digits_fuel zero zero a b p q = refl
or_digits_fuel zero (suc m) zero b p q = refl
or_digits_fuel zero (suc m) (suc a) b p q = absurd (omega arith)
or_digits_fuel (suc n) zero zero b p q = refl
or_digits_fuel (suc n) zero (suc a) b p q = absurd (omega arith)
or_digits_fuel (suc n) (suc m) zero b p q = refl
or_digits_fuel (suc n) (suc m) (suc a) b p q =
    omega (arith, or_digits_fuel n m (suc a / 2) (b / 2) (omega arith) (omega arith))

pub zero-bit_or : (b : ℕ) → bit_or 0 b ≡ b
zero-bit_or b = bit_or-bitwise 0 b

bit_or_step : (a b : ℕ) → bit_or a b ≡ bit_or (a / 2) (b / 2) * 2 + max (a % 2) (b % 2)
bit_or_step zero b = omega (arith, zero-bit_or b, zero-bit_or (b / 2))
bit_or_step (suc a) b = omega (
  arith,
  bit_or-bitwise (suc a) b,
  bit_or-bitwise (suc a / 2) (b / 2),
  or_digits_fuel a (suc a / 2) (suc a / 2) (b / 2) (omega arith) (omega arith),
)

bit_or-eq_zero_fuel : (n a b : ℕ) → a ≤ n → bit_or a b ≡ 0 → (a ≡ 0) × (b ≡ 0)
bit_or-eq_zero_fuel n zero b p h = (refl, omega (arith, zero-bit_or b))
bit_or-eq_zero_fuel zero (suc a) b p h = absurd (omega arith)
bit_or-eq_zero_fuel (suc n) (suc a) b p h =
    let half : bit_or (suc a / 2) (b / 2) ≡ 0 = omega (arith, bit_or_step (suc a) b) in
    let (left, right) = bit_or-eq_zero_fuel n (suc a / 2) (b / 2) (omega arith) half in
    (omega (arith, bit_or_step (suc a) b), omega (arith, bit_or_step (suc a) b))

pub bit_or-eq_zero : (a b : ℕ) → bit_or a b ≡ 0 → (a ≡ 0) × (b ≡ 0)
bit_or-eq_zero a b h = bit_or-eq_zero_fuel a a b (omega arith) h

bit_xor-eq_zero_fuel : (n a b : ℕ) → a ≤ n → bit_xor a b ≡ 0 → a ≡ b
bit_xor-eq_zero_fuel n zero b p h = omega (arith, zero-bit_xor b)
bit_xor-eq_zero_fuel zero (suc a) b p h = absurd (omega arith)
bit_xor-eq_zero_fuel (suc n) (suc a) b p h =
    let half : bit_xor (suc a / 2) (b / 2) ≡ 0 = omega (arith, bit_xor_step (suc a) b) in
    omega
      (arith, bit_xor_step (suc a) b, bit_xor-eq_zero_fuel n (suc a / 2) (b / 2) (omega arith) half)

pub bit_xor-eq_zero : (a b : ℕ) → bit_xor a b ≡ 0 → a ≡ b
bit_xor-eq_zero a b h = bit_xor-eq_zero_fuel a a b (omega arith) h

bit_xor_self_fuel : (n a : ℕ) → a ≤ n → bit_xor a a ≡ 0
bit_xor_self_fuel n zero p = zero-bit_xor 0
bit_xor_self_fuel zero (suc a) p = absurd (omega arith)
bit_xor_self_fuel (suc n) (suc a) p =
    omega (arith, bit_xor_step (suc a) (suc a), bit_xor_self_fuel n (suc a / 2) (omega arith))

pub bit_xor_self : (a : ℕ) → bit_xor a a ≡ 0
bit_xor_self a = bit_xor_self_fuel a a (omega arith)
