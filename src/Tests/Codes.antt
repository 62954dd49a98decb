-- ===== src/Tests/Codes.antt =====
-- Runs on warnings: src/core/warning.hpp, src/core/warning_code.cpp.
use bomwerk.Prelude.{
  Fails-all_of, map, Bytes, ◌≡◌, ◌↔◌, ◌==◌, refl, true, [], ◌∷◌, ◌++◌, codes, Any,
}
use bomwerk.Core.Warnings.{
  is_code_suppressed, format_for_console, code_info_of, warn_external, warn_again, warn_about,
  plain_warning, result,
}
use bomwerk.Core.Warnings.Info.{WarningCodeInfo}
use bomwerk.Core.Warnings.Code.{WarningCode}
use bomwerk.Core.Warnings.Unique.{warning_code_info-injective}
use bomwerk.Core.Warnings.Suppression.{Covers, is_code_suppressed_iff, is_code_suppressed-narrowed}

warning_code_info-injective_run : WarningCode.purl_malformed ≡ WarningCode.purl_malformed
warning_code_info-injective_run =
    warning_code_info-injective WarningCode.purl_malformed WarningCode.purl_malformed refl

is_code_suppressed_iff_run :
    (is_code_suppressed (codes "W-1") (codes "npm") (codes "W-1:npm" ∷ []) ≡ true)
    ↔ Any (Covers (codes "W-1") (codes "npm")) (codes "W-1:npm" ∷ [])
is_code_suppressed_iff_run =
    is_code_suppressed_iff (codes "W-1") (codes "npm") (codes "W-1:npm" ∷ [])

is_code_suppressed-narrowed_run :
    (is_code_suppressed (codes "W-1") (codes "npm") ((codes "W-1" ++ b':' ∷ codes "cargo") ∷ [])
      ≡ true)
    ↔ ((codes "W-1" ≡ codes "W-1") × (codes "cargo" ≡ codes "npm"))
is_code_suppressed-narrowed_run =
    is_code_suppressed-narrowed (codes "W-1") (codes "npm") (codes "W-1") (codes "cargo")
      (Fails-all_of (λ c. c == b':') (codes "W-1") refl)
      (Fails-all_of (λ c. c == b':') (codes "W-1") refl)

-- A module's own code is shown and suppressed by its own id.
abbrev own_code : WarningCodeInfo
own_code = record { id = "my-code"; title = "" }

shown :
    map format_for_console
      (warn_external own_code (codes "m") (codes "npm") [] (result {A = Bytes} [])).warnings
    ≡ codes "[my-code]: m" ∷ []
unfolding format_for_console code_info_of warn_external
shown = refl

again :
    (warn_again
      (record (plain_warning WarningCode.observe_trace_not_written (codes "m")) {
        ecosystem = codes "npm";
      })
      (result {A = Bytes} [])).warnings
    ≡ (warn_about WarningCode.observe_trace_not_written
        (codes "m")
        (codes "npm")
        []
        (result {A = Bytes} [])).warnings
unfolding warn_again warn_about
again = refl
