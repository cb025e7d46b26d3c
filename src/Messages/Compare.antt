-- ===== src/Messages/Compare.antt =====
-- `constant_time_eq` of crates/daphne/src/messages/mod.rs. How long it runs is not modelled.
use Prim.Native.Nat.{bit_or, bit_xor}
use daphne.Common.{
  ℕ, ◌≡◌, ◌↔◌, refl, Bool, true, false, [], ◌∷◌, ◌==◌, ==_iff, if◌then◌else◌, Bool-cases, inl, inr,
  length, bit_or-eq_zero, bit_xor-eq_zero, bit_xor_self, zero-bit_or, arith,
}
use daphne.Codec.Base.{Bytes}

-- `for (x, y) in left.iter().zip(right) { r |= x ^ y; }`
differences : ℕ → Bytes → Bytes → ℕ
differences r (x ∷ left) (y ∷ right) = differences (bit_or r (bit_xor x y)) left right
differences r _ _ = r

unfoldable pub constant_time_eq : Bytes → Bytes → Bool
unfolding differences
constant_time_eq left right =
    if length left == length right then differences 0 left right == 0 else false

differences-zero :
    (left right : Bytes) (r : ℕ)
    → length left ≡ length right
    → differences r left right ≡ 0
    → (r ≡ 0) × (left ≡ right)
unfolding differences
differences-zero [] [] r same h = (h, refl)
differences-zero [] (y ∷ right) r same h = absurd (omega arith)
differences-zero (x ∷ left) [] r same h = absurd (omega arith)
differences-zero (x ∷ left) (y ∷ right) r same h =
    let (head, tail) = differences-zero left right (bit_or r (bit_xor x y)) (omega arith) h in
    let (before, here) = bit_or-eq_zero r (bit_xor x y) head in
    (before, rw (bit_xor-eq_zero x y here, tail))

differences_self : (s : Bytes) → differences 0 s s ≡ 0
unfolding differences
differences_self [] = refl
differences_self (x ∷ s) = rw (bit_xor_self x, zero-bit_or 0) (differences_self s)

-- `constant_time_eq` returns true exactly on equal strings.
pub constant_time_eq_iff :
    (left right : Bytes) → (constant_time_eq left right ≡ true) ↔ (left ≡ right)
unfolding constant_time_eq
constant_time_eq_iff left right = (
  λ h. elim (Bool-cases (length left == length right)) [
    | inl same ↦
        (differences-zero left right 0 ((==_iff _ _).0 same) ((==_iff _ _).0 (rw same at h))).1
    | inr other ↦ let wrong : false ≡ true = rw other at h in cc
  ],
  λ e. rw (e, (==_iff (length right) (length right)).1 refl, differences_self right),
)
