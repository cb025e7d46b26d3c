-- ===== src/Common/Bits.antt =====
-- The exclusive or of numbers and of byte strings: a commutative group as far as the sums of
-- checksums need it.
use Prim.Native.Nat.{
  ℕ, zero, suc, ◌+◌, ◌*◌, ◌/◌, ◌%◌, ◌≤◌, ◌<◌, bit_xor, differ, digits, bit_xor-bitwise,
}
use mathlib.Core.Path.{◌≡◌, refl, sym, ap, ◌∙◌}
use mathlib.Core.List.{List, [], ◌∷◌}
use native.Mathlib.Omega.{arith}
use daphne.Common.Lists.{length, replicate}

differ-mod : (x y : ℕ) → x < 2 → y < 2 → differ x y ≡ (x + y) % 2
differ-mod zero y hx hy = omega arith
differ-mod (suc zero) zero hx hy = refl
differ-mod (suc zero) (suc zero) hx hy = refl
differ-mod (suc zero) (suc (suc y)) hx hy = absurd (omega arith)
differ-mod (suc (suc x)) y hx hy = absurd (omega arith)

abbrev xor_digits : ℕ → ℕ → ℕ → ℕ
xor_digits n a b = digits (λ b. b) differ n a b

xor_digits_fuel : (n m a b : ℕ) → a ≤ n → a ≤ m → xor_digits n a b ≡ xor_digits m a b
xor_digits_fuel zero zero a b p q = refl
xor_digits_fuel zero (suc m) zero b p q = refl
xor_digits_fuel zero (suc m) (suc a) b p q = absurd (omega arith)
xor_digits_fuel (suc n) zero zero b p q = refl
xor_digits_fuel (suc n) zero (suc a) b p q = absurd (omega arith)
xor_digits_fuel (suc n) (suc m) zero b p q = refl
xor_digits_fuel (suc n) (suc m) (suc a) b p q =
    omega (arith, xor_digits_fuel n m (suc a / 2) (b / 2) (omega arith) (omega arith))

pub zero-bit_xor : (b : ℕ) → bit_xor 0 b ≡ b
zero-bit_xor b = bit_xor-bitwise 0 b

pub bit_xor_step : (a b : ℕ) → bit_xor a b ≡ bit_xor (a / 2) (b / 2) * 2 + (a + b) % 2
bit_xor_step zero b = omega (arith, zero-bit_xor b, zero-bit_xor (b / 2))
bit_xor_step (suc a) b = omega (
  arith,
  bit_xor-bitwise (suc a) b,
  bit_xor-bitwise (suc a / 2) (b / 2),
  xor_digits_fuel a (suc a / 2) (suc a / 2) (b / 2) (omega arith) (omega arith),
  differ-mod (suc a % 2) (b % 2) (omega arith) (omega arith),
)

bit_xor_comm_fuel : (n a b : ℕ) → a ≤ n → b ≤ n → bit_xor a b ≡ bit_xor b a
bit_xor_comm_fuel zero zero zero p q = refl
bit_xor_comm_fuel zero zero (suc b) p q = absurd (omega arith)
bit_xor_comm_fuel zero (suc a) b p q = absurd (omega arith)
bit_xor_comm_fuel (suc n) a b p q = omega (
  arith,
  bit_xor_step a b,
  bit_xor_step b a,
  bit_xor_comm_fuel n (a / 2) (b / 2) (omega arith) (omega arith),
)

pub bit_xor_comm : (a b : ℕ) → bit_xor a b ≡ bit_xor b a
bit_xor_comm a b = bit_xor_comm_fuel (a + b) a b (omega arith) (omega arith)

bit_xor_halves : (a b : ℕ) → bit_xor a b / 2 ≡ bit_xor (a / 2) (b / 2)
bit_xor_halves a b = omega (arith, bit_xor_step a b)

bit_xor_parity : (a b : ℕ) → bit_xor a b % 2 ≡ (a + b) % 2
bit_xor_parity a b = omega (arith, bit_xor_step a b)

bit_xor_assoc_fuel :
    (n a b c : ℕ) → a ≤ n → b ≤ n → c ≤ n → bit_xor (bit_xor a b) c ≡ bit_xor a (bit_xor b c)
bit_xor_assoc_fuel zero a b c p q r =
    let ea : a ≡ 0 = omega arith in
    let eb : b ≡ 0 = omega arith in
    rw (ea, eb, zero-bit_xor (bit_xor 0 c)) (ap (λ x. bit_xor x c) (zero-bit_xor 0))
bit_xor_assoc_fuel (suc n) a b c p q r =
    let rest =
      bit_xor_assoc_fuel n (a / 2) (b / 2) (c / 2) (omega arith) (omega arith) (omega arith) in
    let left : bit_xor (bit_xor a b) c
        ≡ bit_xor (bit_xor (a / 2) (b / 2)) (c / 2) * 2 + (bit_xor a b + c) % 2 =
      rw (sym (bit_xor_halves a b)) (bit_xor_step (bit_xor a b) c) in
    let right : bit_xor a (bit_xor b c)
        ≡ bit_xor (a / 2) (bit_xor (b / 2) (c / 2)) * 2 + (a + bit_xor b c) % 2 =
      rw (sym (bit_xor_halves b c)) (bit_xor_step a (bit_xor b c)) in
    omega (arith, rest, left, right, bit_xor_parity a b, bit_xor_parity b c)

pub bit_xor_assoc : (a b c : ℕ) → bit_xor (bit_xor a b) c ≡ bit_xor a (bit_xor b c)
bit_xor_assoc a b c = bit_xor_assoc_fuel (a + b + c) a b c (omega arith) (omega arith) (omega arith)

-- `for (x, y) in xs.iter_mut().zip(ys) { *x ^= y; }`: the bytes beyond the shorter string stay.
unfoldable pub zip_xor : List ℕ → List ℕ → List ℕ
zip_xor [] ys = []
zip_xor (x ∷ xs) [] = x ∷ xs
zip_xor (x ∷ xs) (y ∷ ys) = bit_xor x y ∷ zip_xor xs ys

pub zip_xor-zeros : (n : ℕ) (xs : List ℕ) → length xs ≡ n → zip_xor (replicate n 0) xs ≡ xs
unfolding zip_xor
zip_xor-zeros zero [] h = refl
zip_xor-zeros zero (x ∷ xs) h = absurd (omega arith)
zip_xor-zeros (suc n) [] h = absurd (omega arith)
zip_xor-zeros (suc n) (x ∷ xs) h = rw (zero-bit_xor x, zip_xor-zeros n xs (omega arith))

pub length-zip_xor : (xs ys : List ℕ) → length (zip_xor xs ys) ≡ length xs
unfolding zip_xor
length-zip_xor [] ys = refl
length-zip_xor (x ∷ xs) [] = refl
length-zip_xor (x ∷ xs) (y ∷ ys) = omega (arith, length-zip_xor xs ys)

pub zip_xor_assoc :
    (xs ys zs : List ℕ)
    → length xs ≡ length ys
    → length ys ≡ length zs
    → zip_xor (zip_xor xs ys) zs ≡ zip_xor xs (zip_xor ys zs)
unfolding zip_xor
zip_xor_assoc [] ys zs h k = refl
zip_xor_assoc (x ∷ xs) [] zs h k = absurd (omega arith)
zip_xor_assoc (x ∷ xs) (y ∷ ys) [] h k = absurd (omega arith)
zip_xor_assoc (x ∷ xs) (y ∷ ys) (z ∷ zs) h k =
    rw (bit_xor_assoc x y z, zip_xor_assoc xs ys zs (omega arith) (omega arith))

bit_xor-zero : (a : ℕ) → bit_xor a 0 ≡ a
bit_xor-zero a = bit_xor_comm a 0 ∙ zero-bit_xor a

pub zip_xor-zeros_right : (n : ℕ) (xs : List ℕ) → length xs ≡ n → zip_xor xs (replicate n 0) ≡ xs
unfolding zip_xor
zip_xor-zeros_right n [] h = refl
zip_xor-zeros_right zero (x ∷ xs) h = absurd (omega arith)
zip_xor-zeros_right (suc n) (x ∷ xs) h = rw (bit_xor-zero x, zip_xor-zeros_right n xs (omega arith))
