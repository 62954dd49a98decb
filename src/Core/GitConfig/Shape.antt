-- ===== src/Core/GitConfig/Shape.antt =====
-- What `parse_git_config` of src/core/git_config.cpp gives for every text.
use bomwerk.Prelude.{
  ℕ, zero, suc, ◌+◌, ◌-◌, ◌≤◌, ◌<◌, ◌^◌, ◌≡◌, refl, sym, ap, ◌||◌, not, false, Option, none, some,
  List, [], ◌∷◌, arith, inl, inr, Bytes, is_empty, All, All-append, find_first, length,
  length-append, take, drop, ltb, subst, substr, leb, ◌==◌, Bool-cases, Option-cases,
}
use bomwerk.Core.Text.{to_lower_ascii, trimmed}
use bomwerk.Core.Text.Case.{to_lower_ascii_twice}
use bomwerk.Core.Warnings.{Result}
use bomwerk.Core.Warnings.Code.{WarningCode}
use bomwerk.Core.GitConfig.{
  GitConfigEntry, GitConfigSection, GitConfig, Progress, started, is_closing, is_quote, is_equals,
  is_newline, header_parts, parse_section_header, push_entry, line_warning, cap_sections,
  add_section, header_line, entry_of, add_entry, entry_line, trimmed_line, raw_line, parse_lines,
  without_bom, parse_git_config,
}

pub record IsEntry (e : GitConfigEntry) : Type 0 where
  pub filled : is_empty e.key ≡ false
  pub lower : to_lower_ascii e.key ≡ e.key

pub record IsSection (s : GitConfigSection) : Type 0 where
  pub lower : to_lower_ascii s.name ≡ s.name
  pub all_entries : All IsEntry s.entries

pub record IsConfig (c : GitConfig) : Type 0 where
  pub few : length c.sections ≤ 5000
  pub all_sections : All IsSection c.sections

-- The index of the current section is in range.
abbrev Within : Option ℕ → ℕ → Type 0
Within none n = Unit
Within (some i) n = i < n

record IsSound (p : Progress) : Type 0 where
  config : IsConfig p.outcome.value
  within : Within p.current_section (length p.outcome.value.sections)

length-push_entry :
    (i : ℕ) (e : GitConfigEntry) (ss : List GitConfigSection)
    → length (push_entry i e ss) ≡ length ss
unfolding push_entry
length-push_entry i e [] = refl
length-push_entry zero e (s ∷ ss) = refl
length-push_entry (suc i) e (s ∷ ss) = ap suc (length-push_entry i e ss)

push_entry-All :
    (i : ℕ) (e : GitConfigEntry) (ss : List GitConfigSection)
    → IsEntry e
    → All IsSection ss
    → All IsSection (push_entry i e ss)
unfolding push_entry
push_entry-All i e [] he h = tt
push_entry-All zero e (s ∷ ss) he (hs, h) = (
  record {
    lower = hs.lower;
    all_entries = All-append IsEntry s.entries (e ∷ []) hs.all_entries (he, tt);
  },
  h,
)
push_entry-All (suc i) e (s ∷ ss) he (hs, h) = (hs, push_entry-All i e ss he h)

line_warning-IsSound :
    (label : Bytes) (code : WarningCode) (message : Bytes) (p : Progress)
    → IsSound p
    → IsSound (line_warning label code message p)
unfolding line_warning
line_warning-IsSound label code message p h = record { config = h.config; within = h.within }

cap_sections-IsSound : (label : Bytes) (p : Progress) → IsSound p → IsSound (cap_sections label p)
unfolding cap_sections line_warning
cap_sections-IsSound label p h = elim (Bool-cases (not p.capped)) [
  | inl first ↦ rw first (record { config = h.config; within = tt })
  | inr again ↦ rw again (record { config = h.config; within = tt })
]

header_lower :
    (inside : Bytes) (quote : Option ℕ)
    → to_lower_ascii (header_parts inside quote).0 ≡ (header_parts inside quote).0
unfolding header_parts
header_lower inside none = to_lower_ascii_twice (trimmed inside)
header_lower inside (some quote) = to_lower_ascii_twice (trimmed (take quote inside))

LowerName : Option (Bytes × Bytes) → Type 0
LowerName none = Unit
LowerName (some (name, subsection)) = to_lower_ascii name ≡ name

header-LowerName : (line : Bytes) → LowerName (parse_section_header line)
unfolding parse_section_header LowerName
header-LowerName line = elim (Option-cases (find_first is_closing line)) [
  | inl miss ↦ rw (miss, parse_section_header) tt
  | inr (close, at) ↦
      let inside = substr line 1 (close - 1) in
      rw (at, parse_section_header) (header_lower inside (find_first is_quote inside))
]

add_section-IsSound :
    (label : Bytes) (header : Option (Bytes × Bytes)) (p : Progress)
    → LowerName header
    → length p.outcome.value.sections < 5000
    → IsSound p
    → IsSound (add_section label header p)
unfolding add_section LowerName
add_section-IsSound label none p name few h = record { config = h.config; within = tt }
add_section-IsSound label (some (name, subsection)) p lower few h =
    let ss = p.outcome.value.sections in
    let new : GitConfigSection = record { name = name; subsection = subsection; entries = [] } in
    let size = length-append ss (new ∷ []) in
    record {
      config = record {
        few = omega (arith, size);
        all_sections =
            All-append IsSection ss (new ∷ []) h.config.all_sections
              (record { lower = lower; all_entries = tt }, tt);
      };
      within = omega (arith, size);
    }

header_line-IsSound :
    (label line : Bytes) (p : Progress) → IsSound p → IsSound (header_line label line p)
unfolding header_line
header_line-IsSound label line p h =
    elim (Bool-cases (leb 5000 (length p.outcome.value.sections))) [
      | inl full ↦ rw full (cap_sections-IsSound label p h)
      | inr room ↦ rw room (
          add_section-IsSound label (parse_section_header line) p (header-LowerName line)
            (ground arith) h)
    ]

entry_lower :
    (line : Bytes) (equals : Option ℕ)
    → to_lower_ascii (entry_of line equals).key ≡ (entry_of line equals).key
unfolding entry_of
entry_lower line none = to_lower_ascii_twice line
entry_lower line (some equals) = to_lower_ascii_twice (trimmed (take equals line))

entry_line-IsSound :
    (label line : Bytes) (current : Option ℕ) (p : Progress)
    → p.current_section ≡ current
    → IsSound p
    → IsSound (entry_line label line current p)
unfolding entry_line add_entry
entry_line-IsSound label line none p at h = line_warning-IsSound label _ _ p h
entry_line-IsSound label line (some index) p at h =
    let ss = p.outcome.value.sections in
    let e = entry_of line (find_first is_equals line) in
    elim (Bool-cases (is_empty e.key)) [
      | inl blank ↦ rw blank h
      | inr filled ↦
          let size = length-push_entry index e ss in
          let good : IsEntry e = record {
            filled = filled;
            lower = entry_lower line (find_first is_equals line);
          } in
          rw filled (record {
            config = record {
              few = omega (arith, size, h.config.few);
              all_sections = push_entry-All index e ss good h.config.all_sections;
            };
            within = subst (Within p.current_section) (sym size) h.within;
          })
    ]

special_line-IsSound :
    (label : Bytes) (c : ℕ) (l : Bytes) (p : Progress)
    → IsSound p
    → IsSound (trimmed_line label (c ∷ l) p)
unfolding trimmed_line
special_line-IsSound label c l p h = elim (Bool-cases (c == b'#' || c == b';')) [
  | inl comment ↦ rw comment h
  | inr other ↦ elim (Bool-cases (c == b'[')) [
    | inl opens ↦ rw (other, opens) (header_line-IsSound label (c ∷ l) p h)
    | inr entry ↦ rw (other, entry) (entry_line-IsSound label (c ∷ l) p.current_section p refl h)
  ]
]

trimmed_line-IsSound :
    (label line : Bytes) (p : Progress) → IsSound p → IsSound (trimmed_line label line p)
unfolding trimmed_line
trimmed_line-IsSound label [] p h = h
trimmed_line-IsSound label (c ∷ l) p h = special_line-IsSound label c l p h

raw_line-IsSound : (label line : Bytes) (p : Progress) → IsSound p → IsSound (raw_line label line p)
unfolding raw_line
raw_line-IsSound label line p h = elim (Bool-cases (ltb 8192 (length line))) [
  | inl long ↦ rw long (line_warning-IsSound label _ _ p h)
  | inr short ↦ rw short (trimmed_line-IsSound label (trimmed line) p h)
]

parse_lines-IsSound :
    (fuel : ℕ) (label text : Bytes) (p : Progress)
    → IsSound p
    → IsSound (parse_lines fuel label text p)
unfolding parse_lines
parse_lines-IsSound zero label text p h = h
parse_lines-IsSound (suc fuel) label [] p h = h
parse_lines-IsSound (suc fuel) label (c ∷ text) p h =
    elim (Option-cases (find_first is_newline (c ∷ text))) [
      | inl last ↦ rw (last, parse_lines) (raw_line-IsSound label (c ∷ text) p h)
      | inr (newline, at) ↦
          rw (at, parse_lines)
            (parse_lines-IsSound fuel label (drop (newline + 1) (c ∷ text))
              (raw_line label (take newline (c ∷ text)) p)
              (raw_line-IsSound label (take newline (c ∷ text)) p h))
    ]

fresh-IsSound : (r : Result GitConfig) → r.value.sections ≡ [] → IsSound (started r)
fresh-IsSound r none_yet = record {
  config = record {
    few = omega (arith, ap length none_yet);
    all_sections = subst (All IsSection) (sym none_yet) tt;
  };
  within = tt;
}

-- Whatever the text, the configuration has no more than 5000 sections, every section name and key is
-- in lower case, so that a lookup can find it, and no key is empty.
pub parse_git_config-IsConfig : (text label : Bytes) → IsConfig (parse_git_config text label).value
unfolding parse_git_config
parse_git_config-IsConfig text label =
    let body = without_bom text in
    elim (Bool-cases (ltb (2 ^ 20) (length body))) [
      | inl long ↦
          rw long
            (parse_lines-IsSound (length (take (2 ^ 20) body)) label (take (2 ^ 20) body) _
              (fresh-IsSound _ refl)).config
      | inr whole ↦
          rw whole (parse_lines-IsSound (length body) label body _ (fresh-IsSound _ refl)).config
    ]
