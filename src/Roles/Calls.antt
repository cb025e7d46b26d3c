-- ===== src/Roles/Calls.antt =====
-- Calls that read and change the state of a deployment, and may fail.
use daphne.Common.{◌≡◌, refl, ap}
use daphne.Errors.{Outcome, ok, err, panic}

abbrev pub Call : Type 0 → Type 0 → Type 0
Call Store A = Store → Outcome A × Store

module _ {Store : Type 0} where
  unfoldable pub then_with :
      {A B : Type 0} → (A → Call Store B) → Outcome A × Store → Outcome B × Store
  then_with f (ok a, store) = f a store
  then_with f (err e, store) = (err e, store)
  then_with f (panic, store) = (panic, store)

  infixl 5 ◌>>=◌ ◌>>◌
  abbrev pub ◌>>=◌ : {A B : Type 0} → Call Store A → (A → Call Store B) → Call Store B
  ◌>>=◌ m f store = then_with f (m store)

  abbrev pub ◌>>◌ : {B : Type 0} → Call Store (Unit {0}) → Call Store B → Call Store B
  m >> k = m >>= λ _. k

  abbrev pub returns : {A : Type 0} → A → Call Store A
  returns a store = (ok a, store)

  -- A call that leaves the state alone.
  abbrev pub lift : {A : Type 0} → Outcome A → Call Store A
  lift m store = (m, store)

  abbrev pub reads : {A : Type 0} → (Store → Outcome A) → Call Store A
  reads m store = (m store, store)

  -- What the calls did when they returned.
  pub call_parts :
      {A B : Type 0} (r : Outcome A × Store) (f : A → Call Store B) (b : B) (after : Store)
      → then_with f r ≡ (ok b, after)
      → (a : A) × (between : Store) × (r ≡ (ok a, between)) × (f a between ≡ (ok b, after))
  unfolding then_with
  call_parts (ok a, between) f b after h = (a, between, refl, h)
  call_parts (err e, between) f b after h = cc
  call_parts (panic, between) f b after h = cc

  pub lift_parts :
      {A B : Type 0} (m : Outcome A) (f : A → Call Store B) (store : Store) (b : B) (after : Store)
      → then_with f (m, store) ≡ (ok b, after)
      → (a : A) × (m ≡ ok a) × (f a store ≡ (ok b, after))
  unfolding then_with
  lift_parts (ok a) f store b after h = (a, refl, h)
  lift_parts (err e) f store b after h = cc
  lift_parts panic f store b after h = cc

  -- What the calls did, whatever their outcome: the first one has stopped them, or has gone on.
  pub call_cases :
      {A B : Type 0} (P : Type 0) (r : Outcome A × Store) (f : A → Call Store B)
      (result : Outcome B) (after : Store)
      → then_with f r ≡ (result, after)
      → (r.1 ≡ after → P)
      → ((a : A) (between : Store) → r ≡ (ok a, between) → f a between ≡ (result, after) → P)
      → P
  unfolding then_with
  call_cases P (ok a, between) f result after h stop go = go a between refl h
  call_cases P (err e, between) f result after h stop go = stop (ap (λ x. x.1) h)
  call_cases P (panic, between) f result after h stop go = stop (ap (λ x. x.1) h)

  pub lift_cases :
      {A B : Type 0} (P : Type 0) (m : Outcome A) (f : A → Call Store B) (store : Store)
      (result : Outcome B) (after : Store)
      → then_with f (m, store) ≡ (result, after)
      → (store ≡ after → P)
      → ((a : A) → m ≡ ok a → f a store ≡ (result, after) → P)
      → P
  unfolding then_with
  lift_cases P (ok a) f store result after h stop go = go a refl h
  lift_cases P (err e) f store result after h stop go = stop (ap (λ x. x.1) h)
  lift_cases P panic f store result after h stop go = stop (ap (λ x. x.1) h)
