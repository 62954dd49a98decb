-- ===== src/Core/GitConfig/Entries.antt =====
-- The lines `key = value` of `parse_git_config` in src/core/git_config.cpp.
use bomwerk.Prelude.{
  ℕ, ◌+◌, ◌≡◌, ◌≢◌, refl, sym, ap, ap₂, ◌∙◌, false, some, [], ◌∷◌, ◌++◌, append-nil, append_assoc,
  arith, inl, inr, Bytes, codes, All-append, find_first, find_first-append, length, take, drop,
  take-length-append, drop_past, ◌==◌,
}
use bomwerk.Core.Text.{to_lower_ascii, trimmed}
use bomwerk.Core.Text.Trim.{trimmed_unique, trimmed_blank}
use bomwerk.Core.GitConfig.{
  GitConfigEntry, Progress, is_equals, unquoted, entry_of, raw_line, trimmed_line, entry_line,
  add_entry,
}
use bomwerk.Core.GitConfig.Print.{entry_text, PrintableEntry}
use bomwerk.Core.GitConfig.Lines.{plain_line}

module _ (e : GitConfigEntry) (h : PrintableEntry e) (w : Bytes)
    (w_value : trimmed w ≡ e.value) where
  pub entry_read :
      entry_of
        (e.key ++ (codes " " ++ b'=' ∷ w))
        (find_first is_equals (e.key ++ (codes " " ++ b'=' ∷ w)))
      ≡ e
  unfolding entry_of
  entry_read =
      let whole = append_assoc e.key (codes " ") (b'=' ∷ w) in
      let front = e.key ++ codes " " in
      let at : find_first is_equals (e.key ++ (codes " " ++ b'=' ∷ w)) ≡ some (length front) =
        ap (find_first is_equals) (sym whole)
        ∙ find_first-append is_equals front b'=' w (All-append _ e.key _ h.key_name (refl, tt))
            refl in
      let key : to_lower_ascii (trimmed (take (length front) (e.key ++ (codes " " ++ b'=' ∷ w))))
          ≡ e.key =
        ap (λ t. to_lower_ascii (trimmed (take (length front) t))) (sym whole)
        ∙ ap (λ t. to_lower_ascii (trimmed t)) (take-length-append front (b'=' ∷ w))
        ∙ ap to_lower_ascii (trimmed_unique [] e.key (codes " ") tt (refl, tt) (inr h.key_tight))
        ∙ h.key_plain.lower in
      let value : unquoted (trimmed (drop (length front + 1) (e.key ++ (codes " " ++ b'=' ∷ w))))
          ≡ e.value =
        ap (λ t. unquoted (trimmed (drop (length front + 1) t))) (sym whole)
        ∙ ap (λ t. unquoted (trimmed t)) (drop_past front b'=' w)
        ∙ ap unquoted w_value
        ∙ h.not_quoted in
      ap (entry_of (e.key ++ (codes " " ++ b'=' ∷ w))) at
      ∙ ap₂ (λ a b. record { key = a; value = b }) key value

not_special :
    (label : Bytes) (c : ℕ) (l : Bytes) (p : Progress)
    → c ≢ b'#'
    → c ≢ b';'
    → c ≢ b'['
    → trimmed_line label (c ∷ l) p ≡ entry_line label (c ∷ l) p.current_section p
unfolding trimmed_line
not_special label c l p a b d =
    let x : (c == b'#') ≡ false = ground arith in
    let y : (c == b';') ≡ false = ground arith in
    let z : (c == b'[') ≡ false = ground arith in rw (x, y, z)

module _ (e : GitConfigEntry) (h : PrintableEntry e) where
  -- The end of the trimmed line, behind the equals sign.
  trimmed_entry :
      (w : Bytes) × (trimmed (entry_text e) ≡ e.key ++ (codes " " ++ b'=' ∷ w))
      × (trimmed w ≡ e.value)
  trimmed_entry = elim h.value_trimmed [
    | inl blank ↦
        let line = e.key ++ codes " =" in
        let begins : line ≡ h.key_tight.head ∷ (h.key_tight.tail ++ codes " =") =
          ap (λ t. t ++ codes " =") h.key_tight.begins in
        (
          [],
          ap (λ v. trimmed (b'\t' ∷ (e.key ++ (codes " = " ++ v)))) blank
              ∙ ap (λ t. trimmed (b'\t' ∷ t)) (sym (append_assoc e.key (codes " =") (codes " ")))
              ∙ trimmed_unique (b'\t' ∷ []) line (codes " ") (refl, tt) (refl, tt)
                  (inr (record {
                    head = h.key_tight.head;
                    tail = h.key_tight.tail ++ codes " =";
                    begins = begins;
                    head_solid = h.key_tight.head_solid;
                    front = e.key ++ codes " ";
                    last = b'=';
                    ends = sym (append_assoc e.key (codes " ") (codes "="));
                    last_solid = refl;
                  })),
          trimmed_blank [] tt ∙ sym blank,
        )
    | inr tight ↦
        let line = e.key ++ (codes " = " ++ e.value) in
        let begins : line ≡ h.key_tight.head ∷ (h.key_tight.tail ++ (codes " = " ++ e.value)) =
          ap (λ t. t ++ (codes " = " ++ e.value)) h.key_tight.begins in
        (
          b' ' ∷ e.value,
          ap (λ t. trimmed (b'\t' ∷ t)) (sym (append-nil line))
              ∙ trimmed_unique (b'\t' ∷ []) line [] (refl, tt) tt
                  (inr (record {
                    head = h.key_tight.head;
                    tail = h.key_tight.tail ++ (codes " = " ++ e.value);
                    begins = begins;
                    head_solid = h.key_tight.head_solid;
                    front = e.key ++ (codes " = " ++ tight.front);
                    last = tight.last;
                    ends =
                        ap (λ v. e.key ++ (codes " = " ++ v)) tight.ends
                        ∙ sym (append_assoc e.key (codes " = " ++ tight.front) (tight.last ∷ []));
                    last_solid = tight.last_solid;
                  })),
          ap (λ t. trimmed (b' ' ∷ t)) (sym (append-nil e.value))
              ∙ trimmed_unique (b' ' ∷ []) e.value [] (refl, tt) tt (inr tight),
        )
  ]

  pub raw_line-entry_text :
      (label : Bytes) (index : ℕ) (p : Progress)
      → p.current_section ≡ some index
      → raw_line label (entry_text e) p ≡ add_entry index e p
  unfolding entry_line
  raw_line-entry_text label index p at =
      let (w, line, value) = trimmed_entry in
      let t = e.key ++ (codes " " ++ b'=' ∷ w) in
      let first = h.key_tight.begins in
      let (a, b, c) = h.not_comment h.key_tight.head h.key_tight.tail first in
      let begins = ap (λ s. s ++ (codes " " ++ b'=' ∷ w)) first in
      plain_line label (entry_text e) p h.short
      ∙ ap (λ s. trimmed_line label s p) (line ∙ begins)
      ∙ not_special label h.key_tight.head (h.key_tight.tail ++ (codes " " ++ b'=' ∷ w)) p a b c
      ∙ ap₂ (λ s i. entry_line label s i p) (sym begins) at
      ∙ ap (λ x. add_entry index x p) (entry_read e h w value)
