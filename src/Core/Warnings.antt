-- ===== src/Core/Warnings.antt =====
-- src/core/warning.hpp and src/core/result.hpp: warnings, what is shown of them, and which are
-- suppressed; a value with its warnings. A path is the text that prints it.
pub mod Code
pub mod Info
pub mod Unique
pub mod Suppression
use Prim.Native.String.{String}
use bomwerk.Prelude.{Bool, true, [], ◌∷◌, ◌++◌, List, Bytes, codes, equal, any_of, if◌then◌else◌}
use Code.{WarningCode, externally_defined}
use Info.{WarningCodeInfo, warning_code_info}

pub record Warning : Type 0 where
  pub code : WarningCode
  pub message : Bytes
  pub ecosystem : Bytes
  pub affected_path : Bytes
  pub external_code : WarningCodeInfo

abbrev no_code : WarningCodeInfo
no_code = record { id = ""; title = "" }

-- A warning with neither an ecosystem nor a path.
abbrev pub plain_warning : WarningCode → Bytes → Warning
plain_warning code message = record {
  code = code;
  message = message;
  ecosystem = [];
  affected_path = [];
  external_code = no_code;
}

choose_info : WarningCode → WarningCodeInfo → WarningCodeInfo
choose_info externally_defined external = external
choose_info code external = warning_code_info code

unfoldable pub code_info_of : Warning → WarningCodeInfo
unfolding choose_info
code_info_of warning = choose_info warning.code warning.external_code

-- The overload with a code.
unfoldable pub format_code_for_console : WarningCode → Bytes → Bytes
format_code_for_console code message =
    codes "[" ++ codes (warning_code_info code).id ++ codes "]: " ++ message

unfoldable pub format_for_console : Warning → Bytes
format_for_console warning =
    codes "[" ++ codes (code_info_of warning).id ++ codes "]: " ++ warning.message

-- A set of strings as the list of its members.
abbrev pub contains : List Bytes → Bytes → Bool
contains entries key = any_of (λ entry. equal entry key) entries

unfoldable pub is_code_suppressed : Bytes → Bytes → List Bytes → Bool
is_code_suppressed code_id ecosystem suppressed_entries =
    if contains suppressed_entries code_id
    then true
    else contains suppressed_entries (code_id ++ b':' ∷ ecosystem)

unfoldable pub is_warning_suppressed : Warning → List Bytes → Bool
is_warning_suppressed warning suppressed_entries =
    is_code_suppressed (codes (code_info_of warning).id) warning.ecosystem suppressed_entries

-- A value, the warnings raised on the way to it, and whether nothing was skipped.
pub record Result {ℓ} (A : Type ℓ) : Type ℓ where
  pub value : A
  pub warnings : List Warning
  pub complete : Bool

abbrev pub result {ℓ} : {A : Type ℓ} → A → Result A
result a = record { value = a; warnings = []; complete = true }

abbrev pub warn {ℓ} : {A : Type ℓ} → WarningCode → Bytes → Result A → Result A
warn code message r = record r { warnings = r.warnings ++ plain_warning code message ∷ [] }

-- The three overloads of Result::warn, all their arguments given; `warn` has neither ecosystem nor
-- path.
unfoldable pub warn_about {ℓ} :
    {A : Type ℓ} → WarningCode → Bytes → Bytes → Bytes → Result A → Result A
warn_about code message ecosystem affected_path r = record r {
  warnings =
      r.warnings
      ++ (record (plain_warning code message) {
        ecosystem = ecosystem;
        affected_path = affected_path;
      })
        ∷ [];
}

unfoldable pub warn_external {ℓ} :
    {A : Type ℓ} → WarningCodeInfo → Bytes → Bytes → Bytes → Result A → Result A
warn_external info message ecosystem affected_path r = record r {
  warnings =
      r.warnings
      ++ (record (plain_warning externally_defined message) {
        ecosystem = ecosystem;
        affected_path = affected_path;
        external_code = info;
      })
        ∷ [];
}

unfoldable pub warn_again {ℓ} : {A : Type ℓ} → Warning → Result A → Result A
warn_again warning r = record r { warnings = r.warnings ++ warning ∷ [] }
