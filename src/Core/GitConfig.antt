-- ===== src/Core/GitConfig.antt =====
-- src/core/git_config.hpp and src/core/git_config.cpp: the reader of git configuration files, such
-- as `.gitmodules`.
pub mod Shape
pub mod Print
pub mod Lines
pub mod Entries
pub mod ReadBack
use bomwerk.Prelude.{
  ℕ, zero, suc, ◌+◌, ◌-◌, ◌^◌, Bool, true, false, not, ◌&&◌, ◌||◌, Option, none, some, List, [],
  ◌∷◌, ◌++◌, Bytes, codes, equal, is_empty, find_first, find_last, length, take, drop, substr,
  get_or, ltb, leb, ◌==◌, if◌then◌else◌, to_text,
}
use bomwerk.Core.Text.{to_lower_ascii, trimmed}
use bomwerk.Core.Warnings.{Result, result, warn}
use bomwerk.Core.Warnings.Code.{WarningCode}

pub record GitConfigEntry : Type 0 where
  pub key : Bytes
  pub value : Bytes

pub record GitConfigSection : Type 0 where
  pub name : Bytes
  pub subsection : Bytes
  pub entries : List GitConfigEntry

pub record GitConfig : Type 0 where
  pub sections : List GitConfigSection

abbrev pub max_config_bytes : ℕ
max_config_bytes = 2 ^ 20

abbrev pub max_line_bytes : ℕ
max_line_bytes = 8192

abbrev pub max_sections : ℕ
max_sections = 5000

unfoldable pub unquoted : Bytes → Bytes
unquoted value =
    if leb 2 (length value)
      && (get_or value 0 0 == b'"' && get_or value (length value - 1) 0 == b'"')
    then substr value 1 (length value - 2)
    else value

abbrev pub is_quote : ℕ → Bool
is_quote c = c == b'"'

abbrev pub is_closing : ℕ → Bool
is_closing c = c == b']'

-- The subsection between the first quote of a header and the last one.
unfoldable pub subsection_of : Bytes → ℕ → Option ℕ → Bytes
subsection_of inside quote none = []
subsection_of inside quote (some last_quote) =
    if ltb quote last_quote then substr inside (quote + 1) (last_quote - quote - 1) else []

unfoldable pub header_parts : Bytes → Option ℕ → Bytes × Bytes
unfolding subsection_of
header_parts inside none = (to_lower_ascii (trimmed inside), [])
header_parts inside (some quote) = (
  to_lower_ascii (trimmed (take quote inside)),
  subsection_of inside quote (find_last is_quote inside),
)

-- The name and the subsection of a header, which `none` says is not terminated.
unfoldable pub parse_section_header : Bytes → Option (Bytes × Bytes)
unfolding header_parts
parse_section_header line = elim (find_first is_closing line) [
  | none ↦ none
  | some close ↦
      let inside = substr line 1 (close - 1) in
      some (header_parts inside (find_first is_quote inside))
]

find_entry : Bytes → List GitConfigEntry → Option Bytes
find_entry wanted [] = none
find_entry wanted (entry ∷ entries) =
    if equal entry.key wanted then some entry.value else find_entry wanted entries

-- GitConfigSection::find
unfoldable pub find_in_section : GitConfigSection → Bytes → Option Bytes
unfolding find_entry
find_in_section section key = find_entry (to_lower_ascii key) section.entries

find_in_sections : Bytes → Bytes → Bytes → List GitConfigSection → Option Bytes
find_in_sections wanted_name subsection key [] = none
find_in_sections wanted_name subsection key (section ∷ sections) =
    let rest = find_in_sections wanted_name subsection key sections in
    if equal section.name wanted_name && equal section.subsection subsection
    then elim (find_in_section section key) [ none ↦ rest | some value ↦ some value ]
    else rest

-- GitConfig::find
unfoldable pub find_in_config : GitConfig → Bytes → Bytes → Bytes → Option Bytes
unfolding find_in_sections
find_in_config config name subsection key =
    find_in_sections (to_lower_ascii name) subsection key config.sections

-- The variables of the loop; `none` stands for `kNoSection`.
pub record Progress : Type 0 where
  pub outcome : Result GitConfig
  pub current_section : Option ℕ
  pub capped : Bool

-- sections[index].entries.push_back(entry)
unfoldable pub push_entry : ℕ → GitConfigEntry → List GitConfigSection → List GitConfigSection
push_entry index entry [] = []
push_entry zero entry (section ∷ sections) =
    record section { entries = section.entries ++ entry ∷ [] } ∷ sections
push_entry (suc index) entry (section ∷ sections) = section ∷ push_entry index entry sections

abbrev pub set_sections : List GitConfigSection → Progress → Progress
set_sections sections progress = record progress {
  outcome = record progress.outcome { value = record { sections = sections } };
}

unfoldable pub line_warning : Bytes → WarningCode → Bytes → Progress → Progress
line_warning label code message progress = record progress {
  outcome = warn code (label ++ message) progress.outcome;
}

-- A header where the cap on the number of sections is reached.
unfoldable pub cap_sections : Bytes → Progress → Progress
unfolding line_warning
cap_sections label progress =
    let message =
      codes ": more than " ++ (to_text max_sections ++ codes " sections; ignoring the rest") in
    let warned =
      record (line_warning label WarningCode.git_config_structure_invalid message progress) {
        capped = true;
      } in
    record (if not progress.capped then warned else progress) { current_section = none }

unfoldable pub add_section : Bytes → Option (Bytes × Bytes) → Progress → Progress
unfolding line_warning
add_section label none progress =
    record (line_warning label WarningCode.git_config_structure_invalid
      (codes ": skipping an unterminated section header") progress) { current_section = none }
add_section label (some (name, subsection)) progress =
    let sections = progress.outcome.value.sections in
    let section : GitConfigSection = record {
      name = name;
      subsection = subsection;
      entries = [];
    } in
    record (set_sections (sections ++ section ∷ []) progress) {
      current_section = some (length sections);
    }

unfoldable pub header_line : Bytes → Bytes → Progress → Progress
unfolding cap_sections add_section parse_section_header
header_line label line progress =
    if leb max_sections (length progress.outcome.value.sections)
    then cap_sections label progress
    else add_section label (parse_section_header line) progress

abbrev pub is_equals : ℕ → Bool
is_equals c = c == b'='

unfoldable pub entry_of : Bytes → Option ℕ → GitConfigEntry
unfolding unquoted
entry_of line none = record { key = to_lower_ascii line; value = codes "true" }
entry_of line (some equals) = record {
  key = to_lower_ascii (trimmed (take equals line));
  value = unquoted (trimmed (drop (equals + 1) line));
}

unfoldable pub add_entry : ℕ → GitConfigEntry → Progress → Progress
add_entry index entry progress =
    if is_empty entry.key
    then progress
    else set_sections (push_entry index entry progress.outcome.value.sections) progress

unfoldable pub entry_line : Bytes → Bytes → Option ℕ → Progress → Progress
unfolding line_warning entry_of add_entry
entry_line label line none progress =
    line_warning label WarningCode.malformed_entry_skipped
      (codes ": skipping an entry outside any section") progress
entry_line label line (some index) progress =
    add_entry index (entry_of line (find_first is_equals line)) progress

-- A line without the whitespace around it.
unfoldable pub trimmed_line : Bytes → Bytes → Progress → Progress
unfolding header_line entry_line
trimmed_line label [] progress = progress
trimmed_line label (c ∷ line) progress =
    if c == b'#' || c == b';'
    then progress
    else if c == b'['
    then header_line label (c ∷ line) progress
    else entry_line label (c ∷ line) progress.current_section progress

unfoldable pub raw_line : Bytes → Bytes → Progress → Progress
unfolding trimmed_line line_warning
raw_line label line progress =
    let message =
      codes ": skipping an overlong line (" ++ (to_text (length line) ++ codes " bytes)") in
    if ltb max_line_bytes (length line)
    then line_warning label WarningCode.malformed_entry_skipped message progress
    else trimmed_line label (trimmed line) progress

abbrev pub is_newline : ℕ → Bool
is_newline c = c == b'\n'

-- The loop, on the text from `position` on.
unfoldable pub parse_lines : ℕ → Bytes → Bytes → Progress → Progress
unfolding raw_line
parse_lines zero label text progress = progress
parse_lines (suc fuel) label [] progress = progress
parse_lines (suc fuel) label (c ∷ text) progress = elim (find_first is_newline (c ∷ text)) [
  | none ↦ raw_line label (c ∷ text) progress
  | some newline ↦
      parse_lines fuel label (drop (newline + 1) (c ∷ text))
        (raw_line label (take newline (c ∷ text)) progress)
]

abbrev utf8_bom : Bytes
utf8_bom = 0xEF ∷ 0xBB ∷ 0xBF ∷ []

unfoldable pub without_bom : Bytes → Bytes
without_bom text = if equal (take 3 text) utf8_bom then drop 3 text else text

abbrev pub empty_config : GitConfig
empty_config = record { sections = [] }

abbrev pub started : Result GitConfig → Progress
started outcome = record { outcome = outcome; current_section = none; capped = false }

unfoldable pub parse_git_config : Bytes → Bytes → Result GitConfig
unfolding without_bom parse_lines
parse_git_config text label =
    let body = without_bom text in
    let message =
      codes ": exceeds "
      ++ (to_text max_config_bytes ++ codes " bytes; parsing the first part only") in
    let kept = take max_config_bytes body in
    let cut = warn WarningCode.file_size_limit_exceeded (label ++ message) (result empty_config) in
    if ltb max_config_bytes (length body)
    then (parse_lines (length kept) label kept (started cut)).outcome
    else (parse_lines (length body) label body (started (result empty_config))).outcome

-- `file` is what `read_file_bounded` gives of at most one byte past the cap, `none` where the file is
-- not readable; `path` and `filename` are the texts of the path.
unfoldable pub read_git_config : Bool → Option Bytes → Bytes → Bytes → Result GitConfig
unfolding parse_git_config
read_git_config false file path filename = result empty_config
read_git_config true none path filename =
    warn WarningCode.unreadable_file (codes "cannot read " ++ path) (result empty_config)
read_git_config true (some text) path filename = parse_git_config text filename
