-- ===== src/Tests/Configs.antt =====
-- Runs on configuration files and build variables: src/core/git_config.cpp and
-- src/core/build_variables.cpp.
use bomwerk.Prelude.{
  ◌+◌, ◌^◌, ◌≤◌, ◌≡◌, ◌≢◌, ◌↔◌, refl, none, some, List, [], ◌∷◌, arith, inl, inr, Bytes, codes, All,
  length, equal, Bool-cases,
}
use bomwerk.Core.Text.{to_lower_ascii, to_lower_ascii_char}
use bomwerk.Core.Text.Trim.{IsTight}
use bomwerk.Core.Warnings.{result}
use bomwerk.Core.GitConfig.{GitConfigEntry, GitConfigSection, parse_git_config, unquoted}
use bomwerk.Core.GitConfig.Print.{
  header_tail, header_text, print_entries, print_sections, PrintableEntry, PrintableSection,
}
use bomwerk.Core.GitConfig.ReadBack.{parse-print_sections}
use bomwerk.Core.GitConfig.Shape.{IsConfig, parse_git_config-IsConfig}
use bomwerk.Core.BuildVariables.{
  VariableTable, find, assign, record_variable_definition, merge_variable_tables, expand_variables,
  mark_variable_ambiguous, cmake_variable_dialect, msbuild_variable_dialect, table_key,
  find_closing_bracket, expand_with_budget,
}
use bomwerk.Core.BuildVariables.Table.{record_all, values_of, find-record_all_iff}
use bomwerk.Core.BuildVariables.Merge.{IsTable, agreed, find-merge_variable_tables}
use bomwerk.Core.BuildVariables.Expand.{expand_variables_bound}
use bomwerk.Core.BuildVariables.Verbatim.{IsAmbiguous, expand_variables-ambiguous}

abbrev path_entry : GitConfigEntry
path_entry = record { key = codes "path"; value = codes "libs/zlib" }

abbrev zlib_section : GitConfigSection
zlib_section = record {
  name = codes "submodule";
  subsection = codes "zlib";
  entries = path_entry ∷ [];
}

path_key : IsTight (codes "path")
path_key = record {
  head = b'p';
  tail = codes "ath";
  begins = refl;
  head_solid = refl;
  front = codes "pat";
  last = b'h';
  ends = refl;
  last_solid = refl;
}

path_value : IsTight (codes "libs/zlib")
path_value = record {
  head = b'l';
  tail = codes "ibs/zlib";
  begins = refl;
  head_solid = refl;
  front = codes "libs/zli";
  last = b'b';
  ends = refl;
  last_solid = refl;
}

submodule_name : IsTight (codes "submodule")
submodule_name = record {
  head = b's';
  tail = codes "ubmodule";
  begins = refl;
  head_solid = refl;
  front = codes "submodul";
  last = b'e';
  ends = refl;
  last_solid = refl;
}

path_printable : PrintableEntry path_entry
unfolding to_lower_ascii to_lower_ascii_char unquoted
path_printable = record {
  key_plain = record { lower = refl; one_line = (refl, (refl, (refl, (refl, tt)))) };
  key_tight = path_key;
  key_name = (refl, (refl, (refl, (refl, tt))));
  not_comment =
      λ c s e. let first : b'p' ≡ c = ground arith in (omega arith, omega arith, omega arith);
  value_trimmed = inr path_value;
  value_line = (refl, (refl, (refl, (refl, (refl, (refl, (refl, (refl, (refl, tt)))))))));
  not_quoted = refl;
  short = omega arith;
}

abbrev bare_section : GitConfigSection
bare_section = record { name = codes "submodule"; subsection = []; entries = path_entry ∷ [] }

bare_size : length (header_text bare_section) ≤ 8192
unfolding header_tail
bare_size = omega arith

zlib_size : length (header_text zlib_section) ≤ 8192
unfolding header_tail
zlib_size = omega arith

zlib_printable : PrintableSection zlib_section
unfolding to_lower_ascii to_lower_ascii_char
zlib_printable = record {
  name_plain = record {
    lower = refl;
    one_line = (refl, (refl, (refl, (refl, (refl, (refl, (refl, (refl, (refl, tt)))))))));
  };
  name_trimmed = inr submodule_name;
  name_open = (refl, (refl, (refl, (refl, (refl, (refl, (refl, (refl, (refl, tt)))))))));
  name_unquoted = (refl, (refl, (refl, (refl, (refl, (refl, (refl, (refl, (refl, tt)))))))));
  subsection_line = (refl, (refl, (refl, (refl, tt))));
  subsection_open = (refl, (refl, (refl, (refl, tt))));
  subsection_unquoted = (refl, (refl, (refl, (refl, tt))));
  short = zlib_size;
  all_entries = (path_printable, tt);
}

bare_printable : PrintableSection bare_section
unfolding to_lower_ascii to_lower_ascii_char
bare_printable = record {
  name_plain = zlib_printable.name_plain;
  name_trimmed = zlib_printable.name_trimmed;
  name_open = zlib_printable.name_open;
  name_unquoted = zlib_printable.name_unquoted;
  subsection_line = tt;
  subsection_open = tt;
  subsection_unquoted = tt;
  short = bare_size;
  all_entries = zlib_printable.all_entries;
}

printed_size : length (print_sections (zlib_section ∷ bare_section ∷ [])) ≤ 2 ^ 20
unfolding print_sections print_entries header_tail
printed_size = omega arith

parse-print_sections_example :
    parse_git_config (print_sections (zlib_section ∷ bare_section ∷ [])) (codes ".gitmodules")
    ≡ result (record { sections = zlib_section ∷ bare_section ∷ [] })
parse-print_sections_example =
    parse-print_sections (zlib_section ∷ bare_section ∷ []) (codes ".gitmodules")
      (zlib_printable, (bare_printable, tt)) (omega arith) printed_size

parse_git_config-IsConfig_example :
    IsConfig (parse_git_config (codes "[Core]\n\tBare\n") (codes "config")).value
parse_git_config-IsConfig_example =
    parse_git_config-IsConfig (codes "[Core]\n\tBare\n") (codes "config")

abbrev definitions : List (Bytes × Bytes)
definitions =
    (codes "Version", codes "1.2") ∷ (codes "Name", codes "x") ∷ (codes "version", codes "1.2") ∷ []

find-record_all_iff_example :
    (find (codes "version") (record_all [] msbuild_variable_dialect definitions)
      ≡ some (some (codes "1.2")))
    ↔ ((values_of msbuild_variable_dialect (codes "version") definitions ≢ [])
        × (codes "1.2" ≢ [])
        × All
            (λ w. w ≡ codes "1.2")
            (values_of msbuild_variable_dialect (codes "version") definitions))
find-record_all_iff_example =
    find-record_all_iff msbuild_variable_dialect definitions (codes "version") (codes "1.2")

abbrev left_table : VariableTable
left_table = (codes "a", some (codes "1")) ∷ (codes "b", some (codes "2")) ∷ []

abbrev right_table : VariableTable
right_table = (codes "b", some (codes "3")) ∷ (codes "c", none) ∷ []

right-IsTable : IsTable cmake_variable_dialect right_table
unfolding find equal table_key
right-IsTable = (refl, (λ e. ground arith), refl, (refl, (λ e. ground arith), refl, tt))

find-merge_variable_tables_example :
    find (codes "b") (merge_variable_tables left_table cmake_variable_dialect right_table)
    ≡ agreed (find (codes "b") left_table) (find (codes "b") right_table)
find-merge_variable_tables_example =
    find-merge_variable_tables (codes "b") cmake_variable_dialect left_table right_table
      right-IsTable

merged_ambiguous :
    find (codes "b") (merge_variable_tables left_table cmake_variable_dialect right_table)
    ≡ some none
unfolding find merge_variable_tables equal assign record_variable_definition table_key
    mark_variable_ambiguous
merged_ambiguous = refl

abbrev cyclic_table : VariableTable
cyclic_table = (codes "a", some (codes "${b}")) ∷ (codes "b", some (codes "${a}")) ∷ []

expand_variables_bound_example :
    length (expand_variables (codes "v${a}") cyclic_table cmake_variable_dialect)
    ≤ 8192 + length (codes "v${a}")
expand_variables_bound_example =
    expand_variables_bound (codes "v${a}") cyclic_table cmake_variable_dialect

cycle_left_alone :
    expand_variables (codes "v${a}") cyclic_table cmake_variable_dialect ≡ codes "v${a}"
unfolding expand_variables expand_with_budget find equal table_key find_closing_bracket
cycle_left_alone = refl

nested_expanded :
    expand_variables
      (codes "v${${x}}.0")
      ((codes "x", some (codes "a")) ∷ left_table)
      cmake_variable_dialect
    ≡ codes "v1.0"
unfolding expand_variables expand_with_budget find equal table_key find_closing_bracket
nested_expanded = refl

abbrev vague_table : VariableTable
vague_table = (codes "a", none) ∷ []

vague-IsAmbiguous : IsAmbiguous vague_table
unfolding find
vague-IsAmbiguous k v e = elim (Bool-cases (equal (codes "a") k)) [
  | inl same ↦ ground arith
  | inr other ↦ ground arith
]

expand_variables-ambiguous_run :
    expand_variables (codes "v${a}") vague_table cmake_variable_dialect ≡ codes "v${a}"
expand_variables-ambiguous_run =
    expand_variables-ambiguous (codes "v${a}") vague_table cmake_variable_dialect vague-IsAmbiguous
