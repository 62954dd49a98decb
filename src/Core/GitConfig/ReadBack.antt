-- ===== src/Core/GitConfig/ReadBack.antt =====
-- `parse_git_config` of src/core/git_config.cpp on files of plain sections.
use bomwerk.Prelude.{
  ℕ, zero, suc, ◌+◌, ◌-◌, ◌≤◌, ◌<◌, ◌^◌, ◌≡◌, refl, sym, ap, ◌∙◌, false, Option, none, some, List,
  [], ◌∷◌, ◌++◌, append-nil, append_assoc, arith, inr, Bytes, codes, equal, is_empty, Fails, All,
  All-append, length, length-append, ltb, leb,
}
use bomwerk.Core.Text.Trim.{IsTight}
use bomwerk.Core.Warnings.{result}
use bomwerk.Core.GitConfig.{
  GitConfigEntry, GitConfigSection, Progress, is_newline, push_entry, add_section, add_entry,
  header_line, trimmed_line, raw_line, parse_lines, without_bom, parse_git_config,
}
use bomwerk.Core.GitConfig.Print.{
  header_tail, header_text, entry_text, print_entries, print_sections, PrintableEntry,
  PrintableSection,
}
use bomwerk.Core.GitConfig.Lines.{next_line, plain_line, trimmed_core, parse-header_text}
use bomwerk.Core.GitConfig.Entries.{raw_line-entry_text}

-- The sections so far, nothing amiss.
abbrev state : List GitConfigSection → Option ℕ → Progress
state sections current = record {
  outcome = result (record { sections = sections });
  current_section = current;
  capped = false;
}

abbrev with_entries : List GitConfigEntry → GitConfigSection → GitConfigSection
with_entries es s = record s { entries = s.entries ++ es }

push_last :
    (done : List GitConfigSection) (s : GitConfigSection) (e : GitConfigEntry)
    → push_entry (length done) e (done ++ s ∷ []) ≡ done ++ with_entries (e ∷ []) s ∷ []
unfolding push_entry
push_last [] s e = refl
push_last (x ∷ done) s e = ap (λ t. x ∷ t) (push_last done s e)

tail_front : Bytes → Bytes
tail_front [] = []
tail_front (c ∷ subsection) = codes " \"" ++ (c ∷ (subsection ++ codes "\""))

tail_closes : (subsection : Bytes) → header_tail subsection ≡ tail_front subsection ++ b']' ∷ []
unfolding header_tail tail_front
tail_closes [] = refl
tail_closes (c ∷ subsection) =
    ap (λ t. codes " \"" ++ (c ∷ t)) (sym (append_assoc subsection (codes "\"") (b']' ∷ [])))

tail_whole :
    (subsection : Bytes) → Fails is_newline subsection → Fails is_newline (header_tail subsection)
unfolding header_tail
tail_whole [] h = (refl, tt)
tail_whole (c ∷ subsection) (hc, h) =
    (refl, (refl, (hc, All-append _ subsection _ h (refl, (refl, tt)))))

header_text-IsTight : (s : GitConfigSection) → IsTight (header_text s)
header_text-IsTight s = record {
  head = b'[';
  tail = s.name ++ header_tail s.subsection;
  begins = refl;
  head_solid = refl;
  front = b'[' ∷ (s.name ++ tail_front s.subsection);
  last = b']';
  ends =
      ap (λ t. b'[' ∷ (s.name ++ t)) (tail_closes s.subsection)
      ∙ ap (λ t. b'[' ∷ t) (sym (append_assoc s.name (tail_front s.subsection) (b']' ∷ [])));
  last_solid = refl;
}

header_read :
    (label : Bytes) (s : GitConfigSection) (done : List GitConfigSection) (current : Option ℕ)
    → PrintableSection s
    → length done < 5000
    → raw_line label (header_text s) (state done current)
      ≡ state (done ++ record s { entries = [] } ∷ []) (some (length done))
unfolding trimmed_line header_line add_section
header_read label s done current h few =
    let room : leb 5000 (length done) ≡ false = ground arith in
    plain_line label (header_text s) (state done current) h.short
    ∙ ap (λ t. trimmed_line label t (state done current))
        (trimmed_core (header_text s) (inr (header_text-IsTight s)))
    ∙ rw room (ap (λ r. add_section label r (state done current)) (parse-header_text s h))

entry_added :
    (label : Bytes) (e : GitConfigEntry) (done : List GitConfigSection) (s : GitConfigSection)
    → PrintableEntry e
    → raw_line label (entry_text e) (state (done ++ s ∷ []) (some (length done)))
      ≡ state (done ++ with_entries (e ∷ []) s ∷ []) (some (length done))
unfolding add_entry
entry_added label e done s h =
    let filled : is_empty e.key ≡ false = ap is_empty h.key_tight.begins in
    raw_line-entry_text e h label (length done) (state (done ++ s ∷ []) (some (length done))) refl
    ∙ rw (filled, push_last done s e)

entry_line_whole : (e : GitConfigEntry) → PrintableEntry e → Fails is_newline (entry_text e)
entry_line_whole e h =
    (refl, All-append _ e.key _ h.key_plain.one_line (refl, (refl, (refl, h.value_line))))

header_line_whole : (s : GitConfigSection) → PrintableSection s → Fails is_newline (header_text s)
header_line_whole s h =
    (refl, All-append _ s.name _ h.name_plain.one_line (tail_whole s.subsection h.subsection_line))

entries_read :
    (es : List GitConfigEntry) (fuel : ℕ) (label rest : Bytes) (done : List GitConfigSection)
    (s : GitConfigSection)
    → All PrintableEntry es
    → parse_lines
        (length es + fuel)
        label
        (print_entries es rest)
        (state (done ++ s ∷ []) (some (length done)))
      ≡ parse_lines fuel label rest (state (done ++ with_entries es s ∷ []) (some (length done)))
unfolding print_entries
entries_read [] fuel label rest done s h =
    let same : 0 + fuel ≡ fuel = omega arith in rw (same, append-nil s.entries)
entries_read (e ∷ es) fuel label rest done s (he, h) =
    let next : suc (length es) + fuel ≡ suc (length es + fuel) = omega arith in
    rw next (
      next_line (length es + fuel) label (entry_text e) (print_entries es rest)
        (state (done ++ s ∷ []) (some (length done))) (entry_line_whole e he)
      ∙ ap (parse_lines (length es + fuel) label (print_entries es rest))
          (entry_added label e done s he)
      ∙ entries_read es fuel label rest done (with_entries (e ∷ []) s) h
      ∙ ap
          (λ x.
            parse_lines fuel label rest
              (state (done ++ record s { entries = x } ∷ []) (some (length done))))
          (append_assoc s.entries (e ∷ []) es))

line_count : List GitConfigSection → ℕ
line_count [] = 0
line_count (s ∷ ss) = suc (length s.entries + line_count ss)

entries_size :
    (es : List GitConfigEntry) (rest : Bytes)
    → length es + length rest ≤ length (print_entries es rest)
unfolding print_entries
entries_size [] rest = omega arith
entries_size (e ∷ es) rest =
    omega
      (arith, entries_size es rest, length-append (entry_text e) (b'\n' ∷ print_entries es rest))

line_count-le : (ss : List GitConfigSection) → line_count ss ≤ length (print_sections ss)
unfolding line_count print_sections
line_count-le [] = omega arith
line_count-le (s ∷ ss) =
    let lines = print_entries s.entries (print_sections ss) in
    omega (
      arith,
      line_count-le ss,
      entries_size s.entries (print_sections ss),
      length-append (header_text s) (b'\n' ∷ lines),
    )

no_text : (fuel : ℕ) (label : Bytes) (p : Progress) → parse_lines fuel label [] p ≡ p
unfolding parse_lines
no_text zero label p = refl
no_text (suc fuel) label p = refl

sections_read :
    (ss : List GitConfigSection) (fuel : ℕ) (label : Bytes) (done : List GitConfigSection)
    (current : Option ℕ)
    → All PrintableSection ss
    → length done + length ss ≤ 5000
    → (parse_lines (line_count ss + fuel) label (print_sections ss) (state done current)).outcome
      ≡ result (record { sections = done ++ ss })
unfolding print_sections line_count
sections_read [] fuel label done current h few =
    ap (λ (p : Progress). p.outcome) (no_text (0 + fuel) label (state done current))
    ∙ ap (λ t. result (record { sections = t })) (sym (append-nil done))
sections_read (s ∷ ss) fuel label done current (hs, h) few =
    let rest = print_entries s.entries (print_sections ss) in
    let later = line_count ss + fuel in
    let count : suc (length s.entries + line_count ss) + fuel ≡ suc (length s.entries + later) =
      omega arith in
    rw count (
      ap (λ (p : Progress). p.outcome)
        (next_line (length s.entries + later) label (header_text s) rest (state done current)
            (header_line_whole s hs)
          ∙ ap (parse_lines (length s.entries + later) label rest)
              (header_read label s done current hs (omega arith))
          ∙ entries_read s.entries later label (print_sections ss) done (record s { entries = [] })
              hs.all_entries)
      ∙ sections_read ss fuel label (done ++ s ∷ []) (some (length done)) h
          (omega (arith, length-append done (s ∷ [])))
      ∙ ap (λ t. result (record { sections = t })) (append_assoc done (s ∷ []) ss))

no_bom : (ss : List GitConfigSection) → without_bom (print_sections ss) ≡ print_sections ss
unfolding without_bom print_sections equal
no_bom [] = refl
no_bom (s ∷ ss) = refl

-- Sections that are written with a header `[name]` or `[name "subsection"]` each, and a line
-- `key = value` behind a tab for each entry, are read back as they were, and without a warning: where
-- names and keys are in lower case; names, keys and values have no whitespace at their ends and no
-- newline, and subsections no newline; names and subsections have no quote and no closing bracket;
-- keys are not empty, have no equals sign and do not start with `#`, `;` or `[`; no value is in quotes
-- from end to end; no line is over 8192 bytes, and there are no more than 5000 sections and 2 ^ 20
-- bytes.
pub parse-print_sections :
    (ss : List GitConfigSection) (label : Bytes)
    → All PrintableSection ss
    → length ss ≤ 5000
    → length (print_sections ss) ≤ 2 ^ 20
    → parse_git_config (print_sections ss) label ≡ result (record { sections = ss })
unfolding parse_git_config
parse-print_sections ss label h few small =
    let size = length (print_sections ss) in
    let within : ltb (2 ^ 20) size ≡ false = ground arith in
    let fuel : size ≡ line_count ss + (size - line_count ss) = omega (arith, line_count-le ss) in
    rw (no_bom ss, within)
      (ap (λ (n : ℕ). (parse_lines n label (print_sections ss) (state [] none)).outcome) fuel
        ∙ sections_read ss (size - line_count ss) label [] none h (omega arith))
