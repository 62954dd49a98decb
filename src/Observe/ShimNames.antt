-- ===== src/Observe/ShimNames.antt =====
-- src/observe/shim_names.cpp and src/observe/shim_names.hpp: the tools that are shimmed, and the
-- environment variables that hold where the real ones are.
pub mod Distinct
use bomwerk.Prelude.{
  ℕ, ◌+◌, ◌-◌, Bool, ◌||◌, List, [], ◌∷◌, ◌++◌, Bytes, codes, equal, between, any_of, is_empty, map,
  ◌==◌, if◌then◌else◌,
}

abbrev pub shimmed_tool_names : List Bytes
shimmed_tool_names =
    codes "cc"
    ∷ codes "c++"
    ∷ codes "gcc"
    ∷ codes "g++"
    ∷ codes "clang"
    ∷ codes "clang++"
    ∷ codes "ld"
    ∷ codes "ar"
    ∷ []

abbrev pub real_tool_env_var_prefix : Bytes
real_tool_env_var_prefix = codes "BOMWERK_REAL_"

-- to_upper_ascii of this file
abbrev pub upper_case : ℕ → ℕ
upper_case c = if between b'a' b'z' c then c - b'a' + b'A' else c

-- is_ascii_alphanumeric of this file
abbrev pub is_letter_or_digit : ℕ → Bool
is_letter_or_digit c = between b'a' b'z' c || (between b'A' b'Z' c || between b'0' b'9' c)

-- What the loop pushes for one byte.
unfoldable pub variable_byte : ℕ → ℕ
variable_byte c = if c == b'+' then b'P' else if is_letter_or_digit c then upper_case c else b'_'

unfoldable pub shim_env_var_name : Bytes → Bytes
unfolding variable_byte
shim_env_var_name tool_name =
    if is_empty tool_name then [] else real_tool_env_var_prefix ++ map variable_byte tool_name

unfoldable pub is_shimmed_tool_name : Bytes → Bool
is_shimmed_tool_name tool_name = any_of (λ name. equal name tool_name) shimmed_tool_names
