-- ===== src/Protocol/Report/Extensions.antt =====
-- Which lists of report extensions pass the check.
use daphne.Common.{Bool, true, false, List, [], ◌∷◌, ◌≡◌, ◌↔◌, refl}
use daphne.Messages.Report.{Extension, taskprov, not_implemented, type_code}
use daphne.Protocol.Report.{check_extensions, check_extensions_from, contains}

-- The extensions of an accepted report.
abbrev pub expected_extensions : Bool → List Extension
expected_extensions true = taskprov ∷ []
expected_extensions false = []

-- Behind the Taskprov extension, nothing is accepted.
check_extensions_seen :
    (es : List Extension) → check_extensions_from true (0xff00 ∷ []) true es ≡ true → es ≡ []
unfolding check_extensions_from contains type_code
check_extensions_seen [] h = refl
check_extensions_seen (taskprov ∷ es) h = cc
check_extensions_seen (not_implemented typ payload ∷ es) h = cc

-- The extensions of a report are accepted in exactly one case: in a task that was configured by
-- Taskprov, when the Taskprov extension is the only one, and in any other task, when there is none.
pub check_extensions_iff :
    (is_taskprov : Bool) (extensions : List Extension)
    → (check_extensions is_taskprov extensions ≡ true)
      ↔ (extensions ≡ expected_extensions is_taskprov)
unfolding check_extensions check_extensions_from contains type_code
check_extensions_iff true [] =
    (λ h. cc, λ h. let h' : ◌≡◌ {A = List Extension} [] (taskprov ∷ []) = h in cc)
check_extensions_iff false [] = (λ h. refl, λ h. refl)
check_extensions_iff true (taskprov ∷ es) = (
  λ h. rw (check_extensions_seen es h),
  λ h. let h' : taskprov ∷ es ≡ taskprov ∷ [] = h in let rest : es ≡ [] = cc in rw rest,
)
check_extensions_iff false (taskprov ∷ es) = (λ h. cc, λ h. let h' : taskprov ∷ es ≡ [] = h in cc)
check_extensions_iff true (not_implemented typ payload ∷ es) =
    (λ h. cc, λ h. let h' : not_implemented typ payload ∷ es ≡ taskprov ∷ [] = h in cc)
check_extensions_iff false (not_implemented typ payload ∷ es) =
    (λ h. cc, λ h. let h' : not_implemented typ payload ∷ es ≡ [] = h in cc)
