-- ===== src/Observe/ShimNames/Distinct.antt =====
-- The bytes of the variables of src/observe/shim_names.cpp, and whether two tools share one.
use bomwerk.Prelude.{
  ℕ, ◌≡◌, refl, sym, ap, ◌∙◌, Bool, true, not, ◌||◌, List, [], ◌∷◌, ◌++◌, arith, inl, inr, Bytes,
  All, equal, equal_iff, between, all_of, any_of, Bool-cases, map, ◌==◌,
}
use bomwerk.Observe.ShimNames.{
  shimmed_tool_names, real_tool_env_var_prefix, variable_byte, shim_env_var_name,
  is_shimmed_tool_name,
}

-- A byte that a variable's name can have.
abbrev pub IsVariableByte : ℕ → Type 0
IsVariableByte c = (between b'A' b'Z' c || (between b'0' b'9' c || c == b'_')) ≡ true

variable_bytes : (tool_name : Bytes) → All IsVariableByte (map variable_byte tool_name)
unfolding variable_byte
variable_bytes [] = tt
variable_bytes (c ∷ tool_name) = (ground arith, variable_bytes tool_name)

picked :
    (p : Bytes → Bool) (name : Bytes) (names : List Bytes)
    → all_of p names ≡ true
    → any_of (λ n. equal n name) names ≡ true
    → p name ≡ true
picked p name [] h k = cc
picked p name (n ∷ names) h k = elim (Bool-cases (equal n name)) [
  | inl same ↦ let here : p n ≡ true = ground arith in ap p (sym ((equal_iff n name).0 same)) ∙ here
  | inr other ↦ picked p name names (ground arith) (ground arith)
]

abbrev distinct : Bytes → Bytes → Bool
distinct a b = not (equal (shim_env_var_name a) (shim_env_var_name b)) || equal a b

distinct_table : all_of (λ a. all_of (distinct a) shimmed_tool_names) shimmed_tool_names ≡ true
unfolding shim_env_var_name equal
distinct_table = refl

by_table : (b c : Bool) → b ≡ true → (not b || c) ≡ true → c ≡ true
by_table b c h k = ground arith

all_distinct :
    (a b : Bytes)
    → is_shimmed_tool_name a ≡ true
    → is_shimmed_tool_name b ≡ true
    → distinct a b ≡ true
unfolding is_shimmed_tool_name
all_distinct a b h k =
    picked (distinct a) b shimmed_tool_names
      (picked (λ x. all_of (distinct x) shimmed_tool_names) a shimmed_tool_names distinct_table h) k

prefixed :
    (rest : Bytes) → All IsVariableByte rest → All IsVariableByte (real_tool_env_var_prefix ++ rest)
prefixed rest h = (
  refl,
  (refl, (refl, (refl, (refl, (refl, (refl, (refl, (refl, (refl, (refl, (refl, (refl, h)))))))))))),
)

-- The variable of a tool has a legal name.
pub shim_env_var_name-IsVariableByte :
    (tool_name : Bytes) → All IsVariableByte (shim_env_var_name tool_name)
unfolding shim_env_var_name
shim_env_var_name-IsVariableByte [] = tt
shim_env_var_name-IsVariableByte (c ∷ tool_name) =
    prefixed (map variable_byte (c ∷ tool_name)) (variable_bytes (c ∷ tool_name))

-- Two of the shimmed tools never share a variable, although `+` and all letters of both cases are mapped
-- to capital letters: the shim of a tool runs that tool and no other.
pub shim_env_var_name-injective :
    (a b : Bytes)
    → is_shimmed_tool_name a ≡ true
    → is_shimmed_tool_name b ≡ true
    → shim_env_var_name a ≡ shim_env_var_name b
    → a ≡ b
shim_env_var_name-injective a b h k e =
    let same = (equal_iff (shim_env_var_name a) (shim_env_var_name b)).1 e in
    (equal_iff a b).0 (
      by_table (equal (shim_env_var_name a) (shim_env_var_name b)) (equal a b) same
        (all_distinct a b h k))
