-- ===== src/Core/BuildVariables.antt =====
-- src/core/build_variables.hpp and src/core/build_variables.cpp: the table of the variables of a
-- build, and the expansion of the references to them. A table is the list of its entries, each key
-- once; what it holds under a key does not depend on their order.
pub mod Table
pub mod Merge
pub mod Expand
pub mod Verbatim
use mathlib.Core.Option
use bomwerk.Prelude.{
  ℕ, zero, suc, ◌+◌, ◌-◌, ◌%◌, ◌^◌, Bool, true, false, not, ◌&&◌, ◌||◌, Option, none, some, List,
  [], ◌∷◌, ◌++◌, Bytes, codes, equal, is_empty, starts_with, find_first, length, take, drop, get_or,
  ltb, ◌==◌, any_of, if◌then◌else◌,
}
use bomwerk.Core.Text.{to_lower_ascii}

pub record VariableDialect : Type 0 where
  pub open_bracket : ℕ
  pub close_bracket : ℕ
  pub case_insensitive_names : Bool

abbrev pub cmake_variable_dialect : VariableDialect
cmake_variable_dialect = record {
  open_bracket = b'{';
  close_bracket = b'}';
  case_insensitive_names = false;
}

abbrev pub msbuild_variable_dialect : VariableDialect
msbuild_variable_dialect = record {
  open_bracket = b'(';
  close_bracket = b')';
  case_insensitive_names = true;
}

-- An entry that holds `none` is ambiguous.
abbrev pub VariableTable : Type 0
VariableTable = List (Bytes × Option Bytes)

abbrev max_expansion_depth : ℕ
max_expansion_depth = 8

abbrev max_substitutions : ℕ
max_substitutions = 256

abbrev max_expanded_bytes : ℕ
max_expanded_bytes = 8192

abbrev unexpanded_markers : List Bytes
unexpanded_markers =
    codes "${" ∷ codes "$(" ∷ codes "$<" ∷ codes "%(" ∷ codes "$ENV{" ∷ codes "$CACHE{" ∷ []

unfoldable pub table_key : VariableDialect → Bytes → Bytes
table_key dialect name = if dialect.case_insensitive_names then to_lower_ascii name else name

-- table.find(key)
unfoldable pub find : Bytes → VariableTable → Option (Option Bytes)
find key [] = none
find key ((name, value) ∷ table) = if equal name key then some value else find key table

-- table[key] = value
unfoldable pub assign : Bytes → Option Bytes → VariableTable → VariableTable
assign key value [] = (key, value) ∷ []
assign key value ((name, old) ∷ table) =
    if equal name key then (name, value) ∷ table else (name, old) ∷ assign key value table

unfoldable pub redefined : Bytes → Bytes → Option (Option Bytes) → VariableTable → VariableTable
redefined key value none table = assign key (some value) table
redefined key value (some none) table = table
redefined key value (some (some old)) table =
    if not (equal old value) then assign key none table else table

unfoldable pub record_variable_definition :
    VariableTable → VariableDialect → Bytes → Bytes → VariableTable
unfolding redefined
record_variable_definition table dialect name value =
    let key = table_key dialect name in
    if is_empty value then assign key none table else redefined key value (find key table) table

unfoldable pub mark_variable_ambiguous : VariableTable → VariableDialect → Bytes → VariableTable
mark_variable_ambiguous table dialect name = assign (table_key dialect name) none table

unfoldable pub merge_entry : VariableDialect → VariableTable → Bytes × Option Bytes → VariableTable
merge_entry dialect destination (name, some value) =
    record_variable_definition destination dialect name value
merge_entry dialect destination (name, none) = mark_variable_ambiguous destination dialect name

unfoldable pub merge_variable_tables :
    VariableTable → VariableDialect → VariableTable → VariableTable
unfolding merge_entry
merge_variable_tables destination dialect [] = destination
merge_variable_tables destination dialect (entry ∷ source) =
    merge_variable_tables (merge_entry dialect destination entry) dialect source

-- text.find(marker) is not npos.
unfoldable pub contains_text : Bytes → Bytes → Bool
contains_text marker [] = is_empty marker
contains_text marker (c ∷ text) =
    if starts_with (c ∷ text) marker then true else contains_text marker text

unfoldable pub contains_unexpanded_variable : Bytes → Bool
unfolding contains_text
contains_unexpanded_variable text = any_of (λ marker. contains_text marker text) unexpanded_markers

pub record ExpansionBudget : Type 0 where
  pub substitutions_left : ℕ
  pub exceeded : Bool

-- How far behind the start of the text the bracket stands that closes the first one; the depth of
-- nesting is a std::size_t.
unfoldable pub find_closing_bracket : VariableDialect → ℕ → Bytes → Option ℕ
find_closing_bracket dialect nesting [] = none
find_closing_bracket dialect nesting (c ∷ text) =
    let up = Option.map suc (find_closing_bracket dialect ((nesting + 1) % 2 ^ 64) text) in
    let down = (nesting + 2 ^ 64 - 1) % 2 ^ 64 in
    let on_down = Option.map suc (find_closing_bracket dialect down text) in
    let stay = Option.map suc (find_closing_bracket dialect nesting text) in
    if c == dialect.open_bracket
    then up
    else if c == dialect.close_bracket
    then (if down == 0 then some 0 else on_down)
    else stay

-- What is appended for a reference to a variable: its value, expanded in its turn, or the reference.
unfoldable pub resolved :
    (Bytes → ExpansionBudget → Bytes × ExpansionBudget)
    → Option (Option Bytes)
    → Bytes
    → ExpansionBudget
    → Bytes × ExpansionBudget
resolved deeper none reference budget = (reference, budget)
resolved deeper (some none) reference budget = (reference, budget)
resolved deeper (some (some value)) reference budget =
    let spent = record budget { substitutions_left = budget.substitutions_left - 1 } in
    let expanded_value = deeper value spent in
    if budget.substitutions_left == 0
    then ([], record budget { exceeded = true })
    else expanded_value

unfoldable pub within_size : Bytes × ExpansionBudget → Bytes × ExpansionBudget
within_size (expanded, budget) =
    if ltb max_expanded_bytes (length expanded)
    then (expanded, record budget { exceeded = true })
    else (expanded, budget)

unfoldable pub append_resolved : Bytes → Bytes × ExpansionBudget → Bytes × ExpansionBudget
unfolding within_size
append_resolved expanded (piece, budget) = within_size (expanded ++ piece, budget)

-- A reference with the whole of it, the name between its brackets, and the call for what is deeper.
unfoldable pub expand_reference :
    VariableTable
    → VariableDialect
    → (Bytes → ExpansionBudget → Bytes × ExpansionBudget)
    → Bytes
    → Bytes
    → Bytes
    → ExpansionBudget
    → Bytes × ExpansionBudget
unfolding resolved append_resolved
expand_reference table dialect deeper reference raw_name expanded budget =
    let (name, named) = deeper raw_name budget in
    append_resolved expanded (resolved deeper (find (table_key dialect name) table) reference named)

unfoldable pub starts_reference : VariableDialect → Bytes → Bool
starts_reference dialect [] = false
starts_reference dialect (c ∷ []) = false
starts_reference dialect (c ∷ d ∷ text) = c == b'$' && d == dialect.open_bracket

-- The loop of `expand_with_budget`, on the text from `position` on.
unfoldable pub expand_loop :
    VariableTable
    → VariableDialect
    → (Bytes → ExpansionBudget → Bytes × ExpansionBudget)
    → ℕ
    → Bytes
    → Bytes
    → ExpansionBudget
    → Bytes × ExpansionBudget
unfolding starts_reference expand_reference
expand_loop table dialect deeper zero text expanded budget = (expanded, budget)
expand_loop table dialect deeper (suc fuel) [] expanded budget = (expanded, budget)
expand_loop table dialect deeper (suc fuel) (c ∷ text) expanded budget = elim budget.exceeded [
  | true ↦ (expanded, budget)
  | false ↦ elim (starts_reference dialect (c ∷ text)) [
    | false ↦ expand_loop table dialect deeper fuel text (expanded ++ c ∷ []) budget
    | true ↦ elim (find_closing_bracket dialect 0 text) [
      | none ↦ (expanded ++ c ∷ text, budget)
      | some closing ↦
          let (longer, spent) =
            expand_reference table dialect deeper (take (closing + 2) (c ∷ text))
              (take (closing - 1) (drop 1 text)) expanded budget in
          expand_loop table dialect deeper fuel (drop (closing + 1) text) longer spent
    ]
  ]
]

-- `levels` counts the depths that are left, from max_expansion_depth + 1 on.
unfoldable pub expand_with_budget :
    VariableTable → VariableDialect → ℕ → Bytes → ExpansionBudget → Bytes × ExpansionBudget
unfolding expand_loop
expand_with_budget table dialect zero text budget = (text, record budget { exceeded = true })
expand_with_budget table dialect (suc levels) text budget =
    expand_loop table dialect (expand_with_budget table dialect levels) (length text) text [] budget

unfoldable pub if_within : Bytes → Bytes × ExpansionBudget → Bytes
if_within text (expanded, budget) = if budget.exceeded then text else expanded

abbrev no_entries : VariableTable → Bool
no_entries [] = true
no_entries (entry ∷ table) = false

abbrev is_dollar : ℕ → Bool
is_dollar c = c == b'$'

unfoldable pub expand_variables : Bytes → VariableTable → VariableDialect → Bytes
unfolding expand_with_budget if_within
expand_variables text table dialect =
    let budget : ExpansionBudget = record {
      substitutions_left = max_substitutions;
      exceeded = false;
    } in
    let expanded =
      if_within text (expand_with_budget table dialect (max_expansion_depth + 1) text budget) in
    if no_entries table || not (any_of is_dollar text) then text else expanded
