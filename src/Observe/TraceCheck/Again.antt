-- ===== src/Observe/TraceCheck/Again.antt =====
-- A trace that has been rewritten, checked a second time and read: src/observe/trace_check.cpp and
-- src/observe/trace_read.cpp.
use mathlib.Core.Option.{some-injective}
use bomwerk.Prelude.{
  suc, ◌+◌, ◌≤◌, ◌<◌, ◌≡◌, refl, sym, ap, ◌∙◌, subst, false, some, List, [], ◌∷◌, ◌++◌, append-nil,
  append_assoc, arith, Bytes, All, is_empty, less, less-IsOrder, leb, length, length-append,
  sort_by, sort_by-All, sort_by-perm, sort_by-Permᴰ, All-mono,
}
use bomwerk.Core.Warnings.{result}
use bomwerk.Observe.TraceRead.{
  JsonLibrary, TraceRecord, Reading, max_trace_lines, drop_trailing_carriage_return,
  parse_trace_record, trace_lines, read_lines, no_reading, malformed_warning, budget_warning,
  read_trace,
}
use bomwerk.Observe.TraceCheck.{written_text, validate_and_sort_trace}
use bomwerk.Observe.TraceCheck.Loop.{values_of, contents, record_lines}
use bomwerk.Observe.TraceCheck.Outcome.{
  length-permuted, length-record_lines, replaced, validate_and_sort_trace-Validated,
}
use bomwerk.Observe.TraceCheck.Lines.{
  IsLine, EndsPlain, IsSettled, trace_lines-written_text, trace_lines-IsLine,
  record_lines-IsSettled, contents-settled, record_lines-settled,
}

module _ (json : JsonLibrary) where
  abbrev after_line : TraceRecord → Reading → Reading
  after_line r p = record p { records = p.records ++ r ∷ []; total_lines = suc p.total_lines }

  settled_line_lem :
      (line : Bytes) (lines : List Bytes) (p : Reading) (v : IsSettled json line)
      → length p.records < max_trace_lines
      → read_lines json (line ∷ lines) p ≡ read_lines json lines (after_line v.call p)
  unfolding read_lines
  settled_line_lem line lines p v room =
      let full : is_empty (drop_trailing_carriage_return line) ≡ false =
        ap is_empty v.no_return ∙ v.full in
      let parsed : parse_trace_record json (drop_trailing_carriage_return line) ≡ some v.call =
        ap (parse_trace_record json) v.no_return ∙ v.parsed in
      let below : leb max_trace_lines (length p.records) ≡ false = ground arith in
      simp (full, parsed, below, read_lines)

  parsed_values :
      (line : Bytes) (lines : List Bytes) (v : IsSettled json line)
      → values_of (parse_trace_record json) (line ∷ lines)
        ≡ v.call ∷ values_of (parse_trace_record json) lines
  unfolding values_of
  parsed_values line lines v = rw (v.parsed, values_of)

  -- The loop of read_trace on such lines.
  record Behind (lines : List Bytes) (p q : Reading) : Type 0 where
    pub records : q.records ≡ p.records ++ values_of (parse_trace_record json) lines
    pub malformed : q.malformed_lines ≡ p.malformed_lines
    pub within : q.exceeded_line_budget ≡ p.exceeded_line_budget

  settled_loop :
      (lines : List Bytes) (p : Reading)
      → All (IsSettled json) lines
      → length p.records + length lines ≤ max_trace_lines
      → Behind lines p (read_lines json lines p)
  unfolding read_lines values_of
  settled_loop [] p h room = record {
    records = sym (append-nil p.records);
    malformed = refl;
    within = refl;
  }
  settled_loop (line ∷ lines) p (v, h) room =
      let next = after_line v.call p in
      let rest =
        settled_loop lines next h (omega (arith, room, length-append p.records (v.call ∷ []))) in
      subst (Behind (line ∷ lines) p) (sym (settled_line_lem line lines p v (omega (arith, room))))
        (record {
          records =
              rest.records
              ∙ append_assoc p.records (v.call ∷ []) (values_of (parse_trace_record json) lines)
              ∙ ap (λ rs. p.records ++ rs) (sym (parsed_values line lines v));
          malformed = rest.malformed;
          within = rest.within;
        })

  no_warnings :
      (q : Reading)
      → q.malformed_lines ≡ 0
      → q.exceeded_line_budget ≡ false
      → budget_warning q (malformed_warning q (result q.records)) ≡ result q.records
  unfolding budget_warning malformed_warning
  no_warnings q none_malformed within =
      rw (none_malformed, within, budget_warning, malformed_warning)

  read_trace-settled :
      (trace_path : Bytes) (lines : List Bytes)
      → All (IsSettled json) lines
      → length lines ≤ max_trace_lines
      → read_trace json trace_path (some (written_text lines))
        ≡ result (values_of (parse_trace_record json) lines)
  unfolding read_trace
  read_trace-settled trace_path lines h room =
      let one_line = All-mono (IsSettled json) IsLine lines (λ l v. v.one_line) h in
      let q = read_lines json lines no_reading in
      let v = settled_loop lines no_reading h (omega (arith, room)) in
      ap
        (λ ls.
          let p = read_lines json ls no_reading in
          budget_warning p (malformed_warning p (result p.records)))
        (trace_lines-written_text lines one_line)
      ∙ no_warnings q v.malformed v.within
      ∙ ap result v.records

-- What a trace says that has been rewritten from `bytes`.
pub record Clean (json : JsonLibrary) (trace_path bytes trace : Bytes) : Type 0 where
  pub checked_again : (validate_and_sort_trace json trace_path replaced (some trace)).1 ≡ some trace
  pub none_malformed :
      (validate_and_sort_trace json trace_path replaced (some trace)).0.value.malformed_lines ≡ 0
  pub all_sorted :
      (validate_and_sort_trace json trace_path replaced (some trace)).0.value.sorted_lines
      ≡ (validate_and_sort_trace json trace_path replaced (some bytes)).0.value.sorted_lines
  pub read :
      read_trace json trace_path (some trace)
      ≡ result (
          values_of
            (parse_trace_record json)
            (sort_by less (record_lines json (trace_lines bytes))))

sorted_again : (lines : List Bytes) → sort_by less (sort_by less lines) ≡ sort_by less lines
sorted_again lines = sort_by-perm less-IsOrder (sort_by-Permᴰ less lines)

clean :
    (json : JsonLibrary) (trace_path bytes : Bytes)
    → length (trace_lines bytes) ≤ max_trace_lines
    → All EndsPlain (trace_lines bytes)
    → Clean json trace_path bytes
        (written_text (sort_by less (record_lines json (trace_lines bytes))))
clean json trace_path bytes room plain =
    let rs = record_lines json (trace_lines bytes) in
    let lines = sort_by less rs in
    let trace = written_text lines in
    let settled =
      sort_by-All less (IsSettled json) rs
        (record_lines-IsSettled json (trace_lines bytes) (trace_lines-IsLine bytes) plain) in
    let one_line = All-mono (IsSettled json) IsLine lines (λ l v. v.one_line) settled in
    let back = trace_lines-written_text lines one_line in
    let short : length lines ≤ max_trace_lines = omega (
      arith,
      room,
      length-record_lines json (trace_lines bytes),
      length-permuted (sort_by-Permᴰ less rs),
    ) in
    let first = validate_and_sort_trace-Validated json trace_path bytes room in
    let again =
      validate_and_sort_trace-Validated json trace_path trace
        (subst (λ ls. length ls ≤ max_trace_lines) (sym back) short) in
    let same = ap (record_lines json) back ∙ record_lines-settled json lines settled in
    let total =
      again.total
      ∙ ap (λ ls. length (contents ls)) back
      ∙ ap length (contents-settled json lines settled) in
    let sorted = again.sorted ∙ ap length same in
    record {
      checked_again =
          again.file ∙ ap (λ ls. some (written_text ls)) (ap (sort_by less) same ∙ sorted_again rs);
      none_malformed = omega (arith, again.balance, total, sorted);
      all_sorted = sorted ∙ length-permuted (sort_by-Permᴰ less rs) ∙ sym first.sorted;
      read = read_trace-settled json trace_path lines settled short;
    }

-- A trace that has been rewritten is clean, for up to a million lines of which none ends in two
-- carriage returns: a second check finds no malformed line, sorts as many lines and leaves the file as
-- it is; and reading it gives the records of the lines that were kept, in their order and without a
-- warning, so no line that the check keeps is refused by the reader.
pub validate_and_sort_trace-Clean :
    (json : JsonLibrary) (trace_path bytes trace : Bytes)
    → length (trace_lines bytes) ≤ max_trace_lines
    → All EndsPlain (trace_lines bytes)
    → (validate_and_sort_trace json trace_path replaced (some bytes)).1 ≡ some trace
    → Clean json trace_path bytes trace
validate_and_sort_trace-Clean json trace_path bytes trace room plain e =
    let first = validate_and_sort_trace-Validated json trace_path bytes room in
    subst (Clean json trace_path bytes)
      (some-injective (written_text (sort_by less (record_lines json (trace_lines bytes)))) trace
        (sym first.file ∙ e))
      (clean json trace_path bytes room plain)
