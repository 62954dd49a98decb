-- ===== src/Tests/Shims.antt =====
-- Runs on the names of tools: src/observe/shim_names.cpp.
use bomwerk.Prelude.{◌≡◌, refl, true, false, codes, equal}
use bomwerk.Observe.ShimNames.{shim_env_var_name, variable_byte, is_shimmed_tool_name}
use bomwerk.Observe.ShimNames.Distinct.{shim_env_var_name-injective}

clang_plus : shim_env_var_name (codes "clang++") ≡ codes "BOMWERK_REAL_CLANGPP"
unfolding shim_env_var_name variable_byte
clang_plus = refl

dashed : shim_env_var_name (codes "x-1") ≡ codes "BOMWERK_REAL_X_1"
unfolding shim_env_var_name variable_byte
dashed = refl

clang_shimmed : is_shimmed_tool_name (codes "clang++") ≡ true
unfolding is_shimmed_tool_name equal
clang_shimmed = refl

strip_not_shimmed : is_shimmed_tool_name (codes "strip") ≡ false
unfolding is_shimmed_tool_name equal
strip_not_shimmed = refl

clang_distinct : codes "clang++" ≡ codes "clang++"
clang_distinct =
    shim_env_var_name-injective (codes "clang++") (codes "clang++") clang_shimmed clang_shimmed refl
