-- ===== src/Common/Maps.antt =====
-- A `HashMap` as an association list, under a Boolean test of its keys.
use Prim.Native.Nat.{ℕ, ◌+◌}
use mathlib.Core.Path.{◌≡◌, refl, sym, ◌∙◌}
use mathlib.Core.Logic.{inl, inr}
use mathlib.Core.Bool.{Bool, true, false}
use mathlib.Core.Option.{Option, none, some}
use mathlib.Core.List.{List, [], ◌∷◌, ◌++◌}
use native.Mathlib.Omega.{arith}
use daphne.Common.Tests.{if◌then◌else◌, Bool-cases}

pub record MapKey (K : Type 0) : Type 0 where
  pub key_eq : K → K → Bool
  pub key_eq_sound : (a b : K) → key_eq a b ≡ true → a ≡ b
  pub key_eq_refl : (a : K) → key_eq a a ≡ true

module _ {K V : Type 0} ⦃k : MapKey K⦄ where
  unfoldable pub lookup : K → List (K × V) → Option V
  lookup key [] = none
  lookup key ((other, v) ∷ m) = if k.key_eq other key then some v else lookup key m

  -- An insertion, or the change of an entry that is there.
  unfoldable pub insert : K → V → List (K × V) → List (K × V)
  insert key v [] = (key, v) ∷ []
  insert key v ((other, w) ∷ m) =
      let rest = insert key v m in if k.key_eq other key then (other, v) ∷ m else (other, w) ∷ rest

  -- The first entry of the key, which is the only one.
  unfoldable pub remove : K → List (K × V) → List (K × V)
  remove key [] = []
  remove key ((other, w) ∷ m) =
      let rest = remove key m in if k.key_eq other key then m else (other, w) ∷ rest

-- The sum of a measure over the entries.
unfoldable pub total : {K V : Type 0} → (V → ℕ) → List (K × V) → ℕ
total f [] = 0
total f ((key, v) ∷ m) = f v + total f m

abbrev pub measure_of : {V : Type 0} → (V → ℕ) → Option V → ℕ
measure_of f none = 0
measure_of f (some v) = f v

key_eq-apart :
    {K : Type 0} ⦃k : MapKey K⦄ (a b c : K)
    → k.key_eq a b ≡ false
    → k.key_eq b c ≡ true
    → k.key_eq a c ≡ false
key_eq-apart ⦃k⦄ a b c h e = rw (sym (k.key_eq_sound b c e)) h

module _ {K V : Type 0} ⦃k : MapKey K⦄ where
  pub lookup-insert :
      (key key' : K) (v : V) (m : List (K × V))
      → lookup key' (insert key v m) ≡ (if k.key_eq key key' then some v else lookup key' m)
  unfolding lookup insert
  lookup-insert key key' v [] = refl
  lookup-insert key key' v ((other, w) ∷ m) = elim (Bool-cases (k.key_eq other key)) [
    | inl x ↦
        let e = k.key_eq_sound other key x in
        rw (x, e) (elim (Bool-cases (k.key_eq key key')) [ inl y ↦ rw y | inr y ↦ rw y ])
    | inr x ↦
        rw (x, lookup-insert key key' v m)
          (elim (Bool-cases (k.key_eq key key')) [
            | inl y ↦ rw (y, key_eq-apart other key key' x y)
            | inr y ↦ rw y
          ])
  ]

  pub lookup-insert_self :
      (key : K) (v : V) (m : List (K × V)) → lookup key (insert key v m) ≡ some v
  lookup-insert_self key v m = lookup-insert key key v m ∙ rw (k.key_eq_refl key)

  pub lookup-remove :
      (key key' : K) (m : List (K × V))
      → k.key_eq key key' ≡ false
      → lookup key' (remove key m) ≡ lookup key' m
  unfolding lookup remove
  lookup-remove key key' [] h = refl
  lookup-remove key key' ((other, w) ∷ m) h = elim (Bool-cases (k.key_eq other key)) [
    | inl x ↦ let e = k.key_eq_sound other key x in rw (x, e, h)
    | inr x ↦ rw (x, lookup-remove key key' m h)
  ]

  pub total-insert :
      (f : V → ℕ) (key : K) (v : V) (m : List (K × V))
      → total f (insert key v m) + measure_of f (lookup key m) ≡ f v + total f m
  unfolding total insert lookup
  total-insert f key v [] = omega arith
  total-insert f key v ((other, w) ∷ m) = elim (Bool-cases (k.key_eq other key)) [
    | inl x ↦ rw x (omega arith)
    | inr x ↦ rw x (omega (arith, total-insert f key v m))
  ]

  pub total-remove :
      (f : V → ℕ) (key : K) (m : List (K × V))
      → total f (remove key m) + measure_of f (lookup key m) ≡ total f m
  unfolding total remove lookup
  total-remove f key [] = omega arith
  total-remove f key ((other, w) ∷ m) = elim (Bool-cases (k.key_eq other key)) [
    | inl x ↦ rw x (omega arith)
    | inr x ↦ rw x (omega (arith, total-remove f key m))
  ]

-- The number of elements that pass the test.
abbrev pub count : {A : Type 0} → (A → Bool) → List A → ℕ
count test [] = 0
count test (x ∷ xs) = (if test x then 1 else 0) + count test xs

pub count-append :
    {A : Type 0} (test : A → Bool) (xs ys : List A)
    → count test (xs ++ ys) ≡ count test xs + count test ys
count-append test [] ys = omega arith
count-append test (x ∷ xs) ys = omega (arith, count-append test xs ys)
