-- ===== src/Core/GitConfig/Lines.antt =====
-- The lines of `parse_git_config` in src/core/git_config.cpp, one at a time.
use bomwerk.Prelude.{
  ℕ, suc, ◌+◌, ◌-◌, ◌≤◌, ◌≡◌, refl, sym, ap, ap₂, ◌∙◌, true, false, some, [], ◌∷◌, ◌++◌, append-nil,
  append_assoc, arith, Bytes, codes, Fails, All-append, find_first, find_first-append,
  find_first-none, none, subst, find_last, find_last-append, length, length-append, take, drop,
  substr, take-length-append, drop_past, ltb,
}
use bomwerk.Core.Text.{to_lower_ascii, trimmed}
use bomwerk.Core.Text.Trim.{IsCore, trimmed_unique}
use bomwerk.Core.GitConfig.{
  GitConfigSection, Progress, is_quote, is_closing, is_newline, header_parts, subsection_of,
  parse_section_header, parse_lines, raw_line, trimmed_line,
}
use bomwerk.Core.GitConfig.Print.{header_tail, header_text, PrintableSection}

pub next_line :
    (fuel : ℕ) (label l rest : Bytes) (p : Progress)
    → Fails is_newline l
    → parse_lines (suc fuel) label (l ++ b'\n' ∷ rest) p
      ≡ parse_lines fuel label rest (raw_line label l p)
unfolding parse_lines
next_line fuel label [] rest p h =
    rw (find_first-append is_newline [] b'\n' rest tt refl, parse_lines)
next_line fuel label (c ∷ l) rest p h =
    rw (find_first-append is_newline (c ∷ l) b'\n' rest h refl, parse_lines)
      (ap₂ (λ r t. parse_lines fuel label r (raw_line label t p)) (drop_past (c ∷ l) b'\n' rest)
        (take-length-append (c ∷ l) (b'\n' ∷ rest)))

pub plain_line :
    (label l : Bytes) (p : Progress)
    → length l ≤ 8192
    → raw_line label l p ≡ trimmed_line label (trimmed l) p
unfolding raw_line
plain_line label l p h = let short : ltb 8192 (length l) ≡ false = ground arith in rw short

pub trimmed_core : (t : Bytes) → IsCore t → trimmed t ≡ t
trimmed_core t h = ap trimmed (sym (append-nil t)) ∙ trimmed_unique [] t [] tt tt h

abbrev named_header : Bytes → Bytes → Bytes
named_header name subsection = b'[' ∷ (name ++ (codes " \"" ++ (subsection ++ codes "\"]")))

module _ (s : GitConfigSection) (h : PrintableSection s) where
  inside_text : Bytes
  inside_text = s.name ++ (codes " \"" ++ (s.subsection ++ codes "\""))

  header_closing : named_header s.name s.subsection ≡ (b'[' ∷ inside_text) ++ b']' ∷ []
  unfolding inside_text
  header_closing = simp append_assoc

  inside_open : Fails is_closing (b'[' ∷ inside_text)
  unfolding inside_text
  inside_open = (
    refl,
    All-append _ s.name _ h.name_open
        (refl, (refl, All-append _ s.subsection _ h.subsection_open (refl, tt))),
  )

  quote_at : find_first is_quote inside_text ≡ some (length (s.name ++ codes " "))
  unfolding inside_text
  quote_at =
      ap (find_first is_quote) (sym (append_assoc s.name (codes " ") _))
      ∙ find_first-append is_quote (s.name ++ codes " ") b'"' (s.subsection ++ codes "\"")
          (All-append _ s.name _ h.name_unquoted (refl, tt)) refl

  last_quote_at :
      find_last is_quote inside_text ≡ some (length (s.name ++ (codes " \"" ++ s.subsection)))
  unfolding inside_text
  last_quote_at =
      ap (find_last is_quote) (
        sym (
          append_assoc s.name (codes " \"" ++ s.subsection) (codes "\"")
          ∙ ap (λ t. s.name ++ t) (append_assoc (codes " \"") s.subsection (codes "\""))))
      ∙ find_last-append is_quote (s.name ++ (codes " \"" ++ s.subsection)) b'"' [] tt refl

  name_read : to_lower_ascii (trimmed (take (length (s.name ++ codes " ")) inside_text)) ≡ s.name
  unfolding inside_text
  name_read =
      ap (λ t. to_lower_ascii (trimmed t))
        (ap (take (length (s.name ++ codes " "))) (sym (append_assoc s.name (codes " ") _))
          ∙ take-length-append (s.name ++ codes " ") _)
      ∙ ap to_lower_ascii (trimmed_unique [] s.name (codes " ") tt (refl, tt) h.name_trimmed)
      ∙ h.name_plain.lower

  subsection_read :
      subsection_of inside_text
        (length (s.name ++ codes " "))
        (some (length (s.name ++ (codes " \"" ++ s.subsection))))
      ≡ s.subsection
  unfolding subsection_of inside_text
  subsection_read =
      let first = length (s.name ++ codes " ") in
      let last = length (s.name ++ (codes " \"" ++ s.subsection)) in
      let first_size : first ≡ length s.name + 1 = length-append s.name (codes " ") in
      let last_size : last ≡ length s.name + (2 + length s.subsection) = omega (
        arith,
        length-append s.name (codes " \"" ++ s.subsection),
        length-append (codes " \"") s.subsection,
      ) in
      let order : ltb first last ≡ true = ground arith in
      let size : last - first - 1 ≡ length s.subsection = omega arith in
      rw (order, size)
        (ap (take (length s.subsection)) (
            ap (drop (first + 1)) (sym (append_assoc s.name (codes " ") _))
            ∙ drop_past (s.name ++ codes " ") b'"' (s.subsection ++ codes "\""))
          ∙ take-length-append s.subsection (codes "\""))

  named_read : parse_section_header (named_header s.name s.subsection) ≡ some (s.name, s.subsection)
  unfolding parse_section_header header_parts
  named_read =
      let close = length (b'[' ∷ inside_text) in
      let at : find_first is_closing (named_header s.name s.subsection) ≡ some close =
        ap (find_first is_closing) header_closing
        ∙ find_first-append is_closing (b'[' ∷ inside_text) b']' [] inside_open refl in
      let inside : substr (named_header s.name s.subsection) 1 (close - 1) ≡ inside_text =
        let size : close - 1 ≡ length inside_text = omega arith in
        ap₂ (λ t (n : ℕ). take n (drop 1 t)) header_closing size
        ∙ take-length-append inside_text (b']' ∷ []) in
      rw (at, parse_section_header)
        (ap (λ t. some (header_parts t (find_first is_quote t))) inside
          ∙ ap (λ q. some (header_parts inside_text q)) quote_at
          ∙ ap₂ (λ a b. some (a, b)) name_read
              (ap (subsection_of inside_text (length (s.name ++ codes " "))) last_quote_at
                ∙ subsection_read))

  plain_inside : (t : Bytes) → t ≡ s.name → find_first is_quote t ≡ none
  plain_inside t e = ap (find_first is_quote) e ∙ find_first-none is_quote s.name h.name_unquoted

  plain_read : parse_section_header (b'[' ∷ (s.name ++ b']' ∷ [])) ≡ some (s.name, [])
  unfolding parse_section_header header_parts
  plain_read =
      let text = b'[' ∷ (s.name ++ b']' ∷ []) in
      let close = length (b'[' ∷ s.name) in
      let unclosed : Fails is_closing (b'[' ∷ s.name) = (refl, h.name_open) in
      let at : find_first is_closing text ≡ some close =
        find_first-append is_closing (b'[' ∷ s.name) b']' [] unclosed refl in
      let inside : substr text 1 (close - 1) ≡ s.name =
        let size : close - 1 ≡ length s.name = omega arith in
        ap (λ (n : ℕ). take n (s.name ++ b']' ∷ [])) size ∙ take-length-append s.name (b']' ∷ []) in
      rw (at, parse_section_header)
        (ap (λ t. some (header_parts t (find_first is_quote t))) inside
          ∙ ap (λ q. some (header_parts s.name q)) (plain_inside s.name refl)
          ∙ ap (λ n. some (n, []))
              (ap to_lower_ascii (trimmed_core s.name h.name_trimmed) ∙ h.name_plain.lower))

  by_subsection :
      (subsection : Bytes)
      → s.subsection ≡ subsection
      → parse_section_header (b'[' ∷ (s.name ++ header_tail subsection)) ≡ some (s.name, subsection)
  unfolding header_tail
  by_subsection [] e = plain_read
  by_subsection (c ∷ subsection) e =
      subst (λ t. parse_section_header (named_header s.name t) ≡ some (s.name, t)) e named_read

  pub parse-header_text : parse_section_header (header_text s) ≡ some (s.name, s.subsection)
  parse-header_text = by_subsection s.subsection refl
