-- ===== src/Roles/Checks.antt =====
-- The checks that the handlers of crates/daphne/src/roles share: decoding, the version, the
-- authorization and the look-up of the task. A reason for a denial is some text.
use daphne.Common.{
  ℕ, ◌≡◌, refl, inl, inr, Bool, true, Bool-cases, Option, none, some, ◌==◌, if◌then◌else◌,
}
use daphne.Codec.Base as Codec
use daphne.Codec.Base.{Bytes}
use daphne.Errors.{Outcome, ok, err, panic, DapAbort, abort, bad_request, unauthorized_request}
use daphne.Task.{DapVersion, draft09, latest, DapTaskConfig}
use daphne.Roles.Tasks.{or_unrecognized}

abbrev version_code : DapVersion → ℕ
version_code draft09 = 0
version_code latest = 1

unfoldable pub version_eq : DapVersion → DapVersion → Bool
version_eq a b = version_code a == version_code b

-- `map_err(|e| DapAbort::from_codec_error(e, *task_id))`
unfoldable pub or_invalid_message : {A : Type 0} → Codec.Result A → Outcome A
or_invalid_message (Codec.ok a) = ok a
or_invalid_message (Codec.err e) = err (abort DapAbort.invalid_message)
or_invalid_message Codec.panic = panic

-- Whether the versions of the request and the task agree.
unfoldable pub check_version : DapVersion → DapVersion → Outcome (Unit {0})
unfolding version_eq
check_version task_version version =
    if version_eq task_version version then ok tt else err (abort bad_request)

unfoldable pub unless_denied : Option Bytes → Outcome (Unit {0})
unless_denied none = ok tt
unless_denied (some reason) = err (abort unauthorized_request)

version_eq_sound : (a b : DapVersion) → version_eq a b ≡ true → a ≡ b
unfolding version_eq
version_eq_sound draft09 draft09 h = refl
version_eq_sound latest latest h = refl
version_eq_sound draft09 latest h = cc
version_eq_sound latest draft09 h = cc

pub check_version_ok : (a b : DapVersion) → check_version a b ≡ ok tt → a ≡ b
unfolding check_version
check_version_ok a b h = elim (Bool-cases (version_eq a b)) [
  | inl x ↦ version_eq_sound a b x
  | inr x ↦ let h' = rw x at h in cc
]

pub or_unrecognized-some :
    (found : Option DapTaskConfig) (t : DapTaskConfig)
    → or_unrecognized found ≡ ok t
    → found ≡ some t
unfolding or_unrecognized
or_unrecognized-some none t h = cc
or_unrecognized-some (some x) t h = cc

pub or_invalid_message_ok :
    {A : Type 0} (r : Codec.Result A) (a : A) → or_invalid_message r ≡ ok a → r ≡ Codec.ok a
unfolding or_invalid_message
or_invalid_message_ok (Codec.ok x) a h = cc
or_invalid_message_ok (Codec.err e) a h = cc
or_invalid_message_ok Codec.panic a h = cc

pub unless_denied-none : (reason : Option Bytes) → unless_denied reason ≡ ok tt → reason ≡ none
unfolding unless_denied
unless_denied-none none h = refl
unless_denied-none (some reason) h = cc
