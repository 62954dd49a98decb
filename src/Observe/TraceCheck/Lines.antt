-- ===== src/Observe/TraceCheck/Lines.antt =====
-- The lines of a trace that was written line by line: src/observe/trace_read.cpp and
-- src/observe/trace_check.cpp.
use bomwerk.Prelude.{
  ℕ, ◌≡◌, refl, sym, ap, ◌∙◌, subst, false, some, List, [], ◌∷◌, ◌++◌, inl, inr, Bytes, All,
  Bool-cases, Option-cases, is_empty, ◌==◌,
}
use bomwerk.Observe.TraceRead.{
  JsonLibrary, TraceRecord, drop_trailing_carriage_return, parse_trace_record, prepend, trace_lines,
}
use bomwerk.Observe.TraceCheck.{written_text}
use bomwerk.Observe.TraceCheck.Loop.{
  values_of, record_line, contents, record_lines, contents_blank, contents_full, records_dropped,
  records_kept,
}

abbrev pub IsLine : Bytes → Type 0
IsLine line = All (λ c. (c == b'\n') ≡ false) line

trace_lines_step :
    (c : ℕ) (bytes : Bytes)
    → (c == b'\n') ≡ false
    → trace_lines (c ∷ bytes) ≡ prepend c (trace_lines bytes)
unfolding trace_lines
trace_lines_step c bytes h = rw (h, trace_lines)

trace_lines_line :
    (line rest : Bytes) → IsLine line → trace_lines (line ++ b'\n' ∷ rest) ≡ line ∷ trace_lines rest
unfolding trace_lines
trace_lines_line [] rest h = refl
trace_lines_line (c ∷ line) rest (hc, h) =
    trace_lines_step c (line ++ b'\n' ∷ rest) hc ∙ ap (prepend c) (trace_lines_line line rest h)

pub trace_lines-written_text :
    (lines : List Bytes) → All IsLine lines → trace_lines (written_text lines) ≡ lines
unfolding written_text trace_lines
trace_lines-written_text [] h = refl
trace_lines-written_text (line ∷ lines) (hl, h) =
    trace_lines_line line (written_text lines) hl
    ∙ ap (λ ls. line ∷ ls) (trace_lines-written_text lines h)

prepend-IsLine :
    (c : ℕ) (lines : List Bytes)
    → (c == b'\n') ≡ false
    → All IsLine lines
    → All IsLine (prepend c lines)
prepend-IsLine c [] hc h = ((hc, tt), tt)
prepend-IsLine c (line ∷ lines) hc (hl, h) = ((hc, hl), h)

pub trace_lines-IsLine : (bytes : Bytes) → All IsLine (trace_lines bytes)
unfolding trace_lines
trace_lines-IsLine [] = tt
trace_lines-IsLine (c ∷ bytes) = elim (Bool-cases (c == b'\n')) [
  | inl ends ↦ rw (ends, trace_lines) (tt, trace_lines-IsLine bytes)
  | inr other ↦
      rw (other, trace_lines)
        (prepend-IsLine c (trace_lines bytes) other (trace_lines-IsLine bytes))
]

dropped-IsLine : (line : Bytes) → IsLine line → IsLine (drop_trailing_carriage_return line)
unfolding drop_trailing_carriage_return
dropped-IsLine [] h = tt
dropped-IsLine (c ∷ []) h = elim (Bool-cases (c == b'\r')) [
  | inl return ↦ rw (return, drop_trailing_carriage_return) tt
  | inr other ↦ rw (other, drop_trailing_carriage_return) h
]
dropped-IsLine (c ∷ d ∷ line) (hc, h) = (hc, dropped-IsLine (d ∷ line) h)

-- At most one carriage return ends the line.
abbrev pub EndsPlain : Bytes → Type 0
EndsPlain raw =
    drop_trailing_carriage_return (drop_trailing_carriage_return raw)
    ≡ drop_trailing_carriage_return raw

-- A line as the rewritten trace has it.
pub record IsSettled (json : JsonLibrary) (line : Bytes) : Type 0 where
  pub one_line : IsLine line
  pub no_return : drop_trailing_carriage_return line ≡ line
  pub full : is_empty line ≡ false
  pub call : TraceRecord
  pub parsed : parse_trace_record json line ≡ some call

pub record_lines-IsSettled :
    (json : JsonLibrary) (lines : List Bytes)
    → All IsLine lines
    → All EndsPlain lines
    → All (IsSettled json) (record_lines json lines)
unfolding values_of
record_lines-IsSettled json [] h k = tt
record_lines-IsSettled json (raw ∷ lines) (hl, h) (kl, k) =
    let text = drop_trailing_carriage_return raw in
    let P = All (IsSettled json) in
    let of = values_of (record_line json) in
    elim (Bool-cases (is_empty text)) [
      | inl blank ↦
          subst (λ t. P (of t)) (sym (contents_blank json raw lines blank))
            (record_lines-IsSettled json lines h k)
      | inr full ↦
          subst (λ t. P (of t)) (sym (contents_full json raw lines full))
            (elim (Option-cases (parse_trace_record json text)) [
              | inl bad ↦
                  subst P (sym (records_dropped json text (contents lines) bad))
                    (record_lines-IsSettled json lines h k)
              | inr (r, good) ↦ subst P (sym (records_kept json text (contents lines) r good)) (
                record {
                  one_line = dropped-IsLine raw hl;
                  no_return = kl;
                  full = full;
                  call = r;
                  parsed = good;
                },
                record_lines-IsSettled json lines h k,
              )
            ])
    ]

pub contents-settled :
    (json : JsonLibrary) (lines : List Bytes) → All (IsSettled json) lines → contents lines ≡ lines
unfolding values_of
contents-settled json [] h = refl
contents-settled json (line ∷ lines) (v, h) =
    contents_full json line lines (ap is_empty v.no_return ∙ v.full)
    ∙ ap (λ l. l ∷ contents lines) v.no_return
    ∙ ap (λ ls. line ∷ ls) (contents-settled json lines h)

records-settled :
    (json : JsonLibrary) (lines : List Bytes)
    → All (IsSettled json) lines
    → values_of (record_line json) lines ≡ lines
unfolding values_of
records-settled json [] h = refl
records-settled json (line ∷ lines) (v, h) =
    records_kept json line lines v.call v.parsed
    ∙ ap (λ ls. line ∷ ls) (records-settled json lines h)

pub record_lines-settled :
    (json : JsonLibrary) (lines : List Bytes)
    → All (IsSettled json) lines
    → record_lines json lines ≡ lines
record_lines-settled json lines h =
    ap (values_of (record_line json)) (contents-settled json lines h) ∙ records-settled json lines h
