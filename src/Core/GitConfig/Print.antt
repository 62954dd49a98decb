-- ===== src/Core/GitConfig/Print.antt =====
-- Configuration files of plain sections, for the reader of src/core/git_config.cpp. Nothing is escaped
-- or quoted in them but a subsection.
use bomwerk.Prelude.{ℕ, ◌≤◌, ◌≡◌, ◌≢◌, List, [], ◌∷◌, ◌++◌, Bytes, codes, Fails, All, length}
use bomwerk.Core.Text.{to_lower_ascii}
use bomwerk.Core.Text.Trim.{IsCore, IsTight}
use bomwerk.Core.GitConfig.{
  GitConfigEntry, GitConfigSection, is_quote, is_closing, is_equals, is_newline, unquoted,
}

-- What stands behind the name: a subsection between quotes, if there is one.
unfoldable pub header_tail : Bytes → Bytes
header_tail [] = b']' ∷ []
header_tail (c ∷ subsection) = codes " \"" ++ (c ∷ (subsection ++ codes "\"]"))

-- [name] or [name "subsection"]
abbrev pub header_text : GitConfigSection → Bytes
header_text s = b'[' ∷ (s.name ++ header_tail s.subsection)

-- key = value, behind a tab
abbrev pub entry_text : GitConfigEntry → Bytes
entry_text e = b'\t' ∷ (e.key ++ (codes " = " ++ e.value))

-- Lines, and what stands behind them.
unfoldable pub print_entries : List GitConfigEntry → Bytes → Bytes
print_entries [] rest = rest
print_entries (e ∷ es) rest = entry_text e ++ b'\n' ∷ print_entries es rest

unfoldable pub print_sections : List GitConfigSection → Bytes
print_sections [] = []
print_sections (s ∷ ss) = header_text s ++ b'\n' ∷ print_entries s.entries (print_sections ss)

-- A name or a key in lower case, without whitespace at its ends.
pub record IsPrintable (t : Bytes) : Type 0 where
  pub lower : to_lower_ascii t ≡ t
  pub one_line : Fails is_newline t

pub record PrintableEntry (e : GitConfigEntry) : Type 0 where
  pub key_plain : IsPrintable e.key
  pub key_tight : IsTight e.key
  pub key_name : Fails is_equals e.key
  pub not_comment : (c : ℕ) (s : Bytes) → e.key ≡ c ∷ s → (c ≢ b'#') × (c ≢ b';') × (c ≢ b'[')
  pub value_trimmed : IsCore e.value
  pub value_line : Fails is_newline e.value
  pub not_quoted : unquoted e.value ≡ e.value
  pub short : length (entry_text e) ≤ 8192

pub record PrintableSection (s : GitConfigSection) : Type 0 where
  pub name_plain : IsPrintable s.name
  pub name_trimmed : IsCore s.name
  pub name_open : Fails is_closing s.name
  pub name_unquoted : Fails is_quote s.name
  pub subsection_line : Fails is_newline s.subsection
  pub subsection_open : Fails is_closing s.subsection
  pub subsection_unquoted : Fails is_quote s.subsection
  pub short : length (header_text s) ≤ 8192
  pub all_entries : All PrintableEntry s.entries
