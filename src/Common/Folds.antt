-- ===== src/Common/Folds.antt =====
-- Lists combined by an associative operation, and mapped.
use mathlib.Core.Path.{◌≡◌, refl, sym, ap, ◌∙◌}
use mathlib.Core.List.{List, [], ◌∷◌, ◌++◌, map}
use Prim.Native.Nat.{suc}
use daphne.Common.Lists.{All, length}

-- `op` over a list that begins with `a`.
abbrev pub run {ℓ} : {A : Type ℓ} → (A → A → A) → A → List A → A
run op a [] = a
run op a (x ∷ xs) = run op (op a x) xs

module _ {A : Type 0} (op : A → A → A) (P : A → Type 0)
    (closed : (a b : A) → P a → P b → P (op a b)) where
  pub run-keeps : (a : A) (xs : List A) → P a → All P xs → P (run op a xs)
  run-keeps a [] h hs = h
  run-keeps a (x ∷ xs) h hs = run-keeps (op a x) xs (closed a x h hs.0) hs.1

  module _ (assoc : (a b d : A) → P a → P b → P d → op (op a b) d ≡ op a (op b d)) where
    op-run :
        (a b : A) (ys : List A) → P a → P b → All P ys → op a (run op b ys) ≡ run op (op a b) ys
    op-run a b [] ha hb hs = refl
    op-run a b (y ∷ ys) ha hb hs =
        op-run a (op b y) ys ha (closed b y hb hs.0) hs.1
        ∙ ap (λ m. run op m ys) (sym (assoc a b y ha hb hs.0))

    pub op-run-run :
        (a b : A) (xs ys : List A)
        → P a
        → P b
        → All P xs
        → All P ys
        → op (run op a xs) (run op b ys) ≡ run op a (xs ++ (b ∷ ys))
    op-run-run a b [] ys ha hb hx hy = op-run a b ys ha hb hy
    op-run-run a b (x ∷ xs) ys ha hb hx hy =
        op-run-run (op a x) b xs ys (closed a x ha hx.0) hb hx.1 hy

pub map-append :
    {A B : Type 0} (f : A → B) (xs ys : List A) → map f (xs ++ ys) ≡ map f xs ++ map f ys
map-append f [] ys = refl
map-append f (x ∷ xs) ys = ap (f x ∷◌) (map-append f xs ys)

pub All-units : {A : Type 0} (xs : List A) → All {0, 0} (λ _. Unit) xs
All-units [] = tt
All-units (x ∷ xs) = (tt, All-units xs)

pub length-map : {A B : Type 0} (f : A → B) (xs : List A) → length (map f xs) ≡ length xs
length-map f [] = refl
length-map f (x ∷ xs) = ap suc (length-map f xs)
