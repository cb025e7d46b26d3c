-- ===== src/Errors.antt =====
-- `DapError` and `DapAbort` (crates/daphne/src/error/mod.rs and crates/daphne/src/error/aborts.rs),
-- without the texts that they carry.
use mathlib.Core.Path.{subst}
use daphne.Common.{◌≡◌, refl}
use daphne.Messages.Aggregation.{TransitionFailure}

pub data DapAbort : Type 0 where
  bad_request batch_invalid batch_mismatch batch_overlap invalid_batch_size invalid_task : DapAbort
  missing_task_id query_mismatch report_rejected report_too_late round_mismatch : DapAbort
  unauthorized_request unrecognized_aggregation_job invalid_message unrecognized_task : DapAbort

pub data DapError : Type 0 where
  fatal : DapError
  abort : DapAbort → DapError
  transition : TransitionFailure → DapError

-- A call returns, fails with a `DapError`, or panics.
pub data Outcome {ℓ} (A : Type ℓ) : Type ℓ where
  ok : A → Outcome A
  err : DapError → Outcome A
  panic : Outcome A

infixl 5 ◌>>=◌ ◌>>◌
abbrev pub ◌>>=◌ {ℓ κ} : {A : Type ℓ} {B : Type κ} → Outcome A → (A → Outcome B) → Outcome B
ok a >>= f = f a
err e >>= f = err e
panic >>= f = panic

abbrev pub ◌>>◌ {ℓ} : {B : Type ℓ} → Outcome (Unit {0}) → Outcome B → Outcome B
m >> k = m >>= λ _. k

-- What the chain of calls did when it returned.
pub bind_parts :
    {A B : Type 0} (m : Outcome A) (f : A → Outcome B) (b : B)
    → (m >>= f) ≡ ok b
    → (a : A) × (m ≡ ok a) × (f a ≡ ok b)
bind_parts (ok a) f b h = (a, refl, h)
bind_parts (err e) f b h = cc
bind_parts panic f b h = cc

-- What holds of the value, if the call returns one.
abbrev pub Returns : {A : Type 0} → (A → Type 0) → Outcome A → Type 0
Returns P (ok a) = P a
Returns P (err e) = Unit
Returns P panic = Unit

pub Returns-bind :
    {A B : Type 0} (P : A → Type 0) (Q : B → Type 0) (m : Outcome A) (f : A → Outcome B)
    → Returns P m
    → ((a : A) → P a → Returns Q (f a))
    → Returns Q (m >>= f)
Returns-bind P Q (ok a) f h k = k a h
Returns-bind P Q (err e) f h k = tt
Returns-bind P Q panic f h k = tt

pub Returns-any : {A : Type 0} (m : Outcome A) → Returns (λ _. Unit {0}) m
Returns-any (ok a) = tt
Returns-any (err e) = tt
Returns-any panic = tt

pub Returns-ok :
    {A : Type 0} (P : A → Type 0) {m : Outcome A} {a : A} → Returns P m → m ≡ ok a → P a
Returns-ok P h e = subst (Returns P) e h

pub Returns-weaken :
    {A : Type 0} (P Q : A → Type 0) (m : Outcome A)
    → Returns P m
    → ((a : A) → P a → Q a)
    → Returns Q m
Returns-weaken P Q (ok a) h k = k a h
Returns-weaken P Q (err e) h k = tt
Returns-weaken P Q panic h k = tt
