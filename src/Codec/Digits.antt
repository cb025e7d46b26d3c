-- ===== src/Codec/Digits.antt =====
-- Every string of bytes is the big-endian form of a number.
use native.Mathlib.Nat.{
  div-eq_of_lt, mul-le-mul_right, pow-suc, mul-add-div_right, div-eq_of_lt, mul-le-mul_right,
}
use daphne.Common.{
  ℕ, zero, suc, ◌+◌, ◌*◌, ◌/◌, ◌%◌, ◌^◌, ◌<◌, ◌≡◌, refl, ap, ◌∙◌, [], ◌∷◌, All, length, arith,
}
use daphne.Codec.Base.{Bytes}
use daphne.Codec.Prio.{to_be_bytes, IsByte}

power_pos : (w : ℕ) → 0 < 256 ^ w
power_pos zero = omega arith
power_pos (suc w) = omega (arith, pow-suc 256 w, power_pos w)

regroup : (k m : ℕ) → k * (m * 256) ≡ k * 256 * m
regroup k m = grind arith

raised : (w k : ℕ) → k * 256 ^ suc w ≡ k * 256 * 256 ^ w
raised w k = ap (λ (t : ℕ). k * t) (pow-suc 256 w) ∙ regroup k (256 ^ w)

shifted : (w k v : ℕ) → (k * 256 ^ suc w + v) / 256 ^ w % 256 ≡ v / 256 ^ w % 256
shifted w k v = rw (raised w k, mul-add-div_right (power_pos w) (k * 256) v) (omega arith)

to_be_bytes-add : (w k v : ℕ) → to_be_bytes w (k * 256 ^ w + v) ≡ to_be_bytes w v
to_be_bytes-add zero k v = refl
to_be_bytes-add (suc w) k v = rw (shifted w k v, raised w k, to_be_bytes-add w (k * 256) v)

pub of_be_bytes :
    (w : ℕ) (s : Bytes)
    → length s ≡ w
    → All IsByte s
    → (v : ℕ) × (v < 256 ^ w) × (s ≡ to_be_bytes w v)
of_be_bytes zero [] h hs = (0, omega arith, refl)
of_be_bytes zero (b ∷ s) h hs = absurd (omega arith)
of_be_bytes (suc w) [] h hs = absurd (omega arith)
of_be_bytes (suc w) (b ∷ s) h hs =
    let (v, small, e) = of_be_bytes w s (omega arith) hs.1 in
    let top : (b * 256 ^ w + v) / 256 ^ w ≡ b =
      mul-add-div_right (power_pos w) b v ∙ omega (arith, div-eq_of_lt small) in
    let digit : b % 256 ≡ b = omega (arith, hs.0) in
    (
      b * 256 ^ w + v,
      omega (arith, small, pow-suc 256 w, mul-le-mul_right (256 ^ w) hs.0),
      rw (top, digit, to_be_bytes-add w b v) (ap (b ∷◌) e),
    )
