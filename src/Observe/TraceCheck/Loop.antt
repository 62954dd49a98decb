-- ===== src/Observe/TraceCheck/Loop.antt =====
-- The loop of `validate_and_sort_trace` in src/observe/trace_check.cpp.
use bomwerk.Prelude.{
  ap, ℕ, suc, ◌+◌, ◌≤◌, ◌<◌, ◌≡◌, refl, sym, ◌∙◌, subst, true, false, Option, none, some, List, [],
  ◌∷◌, ◌++◌, append-nil, append_assoc, arith, inl, inr, Bytes, Bool-cases, Option-cases, equal,
  less, is_empty, length, length-append, ltb,
}
use bomwerk.Observe.TraceRead.{
  JsonLibrary, TraceRecord, max_trace_lines, drop_trailing_carriage_return, parse_trace_record,
}
use bomwerk.Observe.TraceCheck.Tools.{count_tools}
use bomwerk.Observe.TraceCheck.{
  Checking, counted, malformed, invoked, count_tool, judge_line, check_lines,
}

-- The values that a partial function has on a list.
unfoldable pub values_of : {A B : Type 0} → (A → Option B) → List A → List B
values_of f [] = []
values_of f (x ∷ xs) = let rest = values_of f xs in elim (f x) [ none ↦ rest | some y ↦ y ∷ rest ]

-- A line with something on it, without its carriage return.
unfoldable pub content_of : Bytes → Option Bytes
content_of raw =
    let line = drop_trailing_carriage_return raw in
    elim (is_empty line) [ true ↦ none | false ↦ some line ]

-- A line that is a record of a call.
unfoldable pub record_line : JsonLibrary → Bytes → Option Bytes
record_line json line = elim (parse_trace_record json line) [ none ↦ none | some r ↦ some line ]

abbrev pub contents : List Bytes → List Bytes
contents lines = values_of content_of lines

abbrev pub record_lines : JsonLibrary → List Bytes → List Bytes
record_lines json lines = values_of (record_line json) (contents lines)

-- The tool that a line is a call of.
unfoldable pub tool_of : JsonLibrary → Bytes → Option Bytes
tool_of json line = elim (parse_trace_record json line) [ none ↦ none | some r ↦ some r.tool ]

tools_kept :
    (json : JsonLibrary) (line : Bytes) (lines : List Bytes) (r : TraceRecord)
    → parse_trace_record json line ≡ some r
    → values_of (tool_of json) (line ∷ lines) ≡ r.tool ∷ values_of (tool_of json) lines
unfolding values_of tool_of
tools_kept json line lines r h = rw (h, values_of, tool_of)

abbrev pub calls_of : List (Bytes × ℕ) → ℕ
calls_of [] = 0
calls_of ((name, n) ∷ entries) = n + calls_of entries

calls-count_tool :
    (tool_name : Bytes) (entries : List (Bytes × ℕ))
    → calls_of (count_tool tool_name entries) ≡ suc (calls_of entries)
unfolding count_tool
calls-count_tool tool_name [] = refl
calls-count_tool tool_name ((name, n) ∷ entries) = elim (Bool-cases (equal name tool_name)) [
  | inl same ↦ rw (same, count_tool) (omega arith)
  | inr other ↦ elim (Bool-cases (less tool_name name)) [
    | inl before ↦ rw (other, before, count_tool) (omega arith)
    | inr behind ↦
        rw (other, behind, count_tool) (omega (arith, calls-count_tool tool_name entries))
  ]
]

-- What the loop does from `p` to `q` on lines with the content `cs` and the records `rs`.
pub record Checked (json : JsonLibrary) (p : Checking) (cs rs : List Bytes) (q : Checking)
    : Type 0 where
  pub kept : q.well_formed_lines ≡ p.well_formed_lines ++ rs
  pub within : q.exceeded_line_budget ≡ p.exceeded_line_budget
  pub total : q.stats.total_lines ≡ p.stats.total_lines + length cs
  pub balance : q.stats.malformed_lines + length rs ≡ p.stats.malformed_lines + length cs
  pub calls :
      calls_of q.stats.invocations_by_tool ≡ calls_of p.stats.invocations_by_tool + length rs
  pub by_tool :
      q.stats.invocations_by_tool
      ≡ count_tools (values_of (tool_of json) rs) p.stats.invocations_by_tool
  pub unsorted : q.stats.sorted_lines ≡ p.stats.sorted_lines

abbrev dropped_line : Checking → Checking
dropped_line p = record p { stats = malformed (counted p.stats) }

abbrev kept_line : Bytes → Bytes → Checking → Checking
kept_line tool_name line p = record p {
  stats = invoked tool_name (counted p.stats);
  well_formed_lines = p.well_formed_lines ++ line ∷ [];
}

after_dropped :
    (json : JsonLibrary) (p q : Checking) (line : Bytes) (cs rs : List Bytes)
    → Checked json (dropped_line p) cs rs q
    → Checked json p (line ∷ cs) rs q
after_dropped json p q line cs rs v = record {
  kept = v.kept;
  within = v.within;
  total = omega (arith, v.total);
  balance = omega (arith, v.balance);
  calls = v.calls;
  by_tool = v.by_tool;
  unsorted = v.unsorted;
}

after_kept :
    (json : JsonLibrary) (p q : Checking) (line : Bytes) (r : TraceRecord) (cs rs : List Bytes)
    → parse_trace_record json line ≡ some r
    → Checked json (kept_line r.tool line p) cs rs q
    → Checked json p (line ∷ cs) (line ∷ rs) q
unfolding count_tools
after_kept json p q line r cs rs good v = record {
  kept = v.kept ∙ append_assoc p.well_formed_lines (line ∷ []) rs;
  within = v.within;
  total = omega (arith, v.total);
  balance = omega (arith, v.balance);
  calls = omega (arith, v.calls, calls-count_tool r.tool p.stats.invocations_by_tool);
  by_tool =
      v.by_tool
      ∙ ap (λ ts. count_tools ts p.stats.invocations_by_tool)
          (sym (tools_kept json line rs r good));
  unsorted = v.unsorted;
}

module _ (json : JsonLibrary) (raw : Bytes) (lines : List Bytes) where
  abbrev line : Bytes
  line = drop_trailing_carriage_return raw

  pub contents_blank : is_empty line ≡ true → contents (raw ∷ lines) ≡ contents lines
  unfolding values_of content_of
  contents_blank h = rw (h, values_of, content_of)

  pub contents_full : is_empty line ≡ false → contents (raw ∷ lines) ≡ line ∷ contents lines
  unfolding values_of content_of
  contents_full h = rw (h, values_of, content_of)

  check_blank :
      (p : Checking)
      → is_empty line ≡ true
      → check_lines json (raw ∷ lines) p ≡ check_lines json lines p
  unfolding check_lines
  check_blank p h = rw (h, check_lines)

  check_dropped :
      (p : Checking)
      → is_empty line ≡ false
      → parse_trace_record json line ≡ none
      → check_lines json (raw ∷ lines) p ≡ check_lines json lines (dropped_line p)
  unfolding check_lines judge_line
  check_dropped p h bad = rw (h, bad, check_lines)

  check_kept :
      (p : Checking) (r : TraceRecord)
      → is_empty line ≡ false
      → parse_trace_record json line ≡ some r
      → length p.well_formed_lines < max_trace_lines
      → check_lines json (raw ∷ lines) p ≡ check_lines json lines (kept_line r.tool line p)
  unfolding check_lines judge_line
  check_kept p r h good room =
      let below : ltb (length p.well_formed_lines) max_trace_lines ≡ true = ground arith in
      simp (h, good, below, check_lines, judge_line)

pub records_dropped :
    (json : JsonLibrary) (line : Bytes) (lines : List Bytes)
    → parse_trace_record json line ≡ none
    → values_of (record_line json) (line ∷ lines) ≡ values_of (record_line json) lines
unfolding values_of record_line
records_dropped json line lines h = rw (h, values_of, record_line)

pub records_kept :
    (json : JsonLibrary) (line : Bytes) (lines : List Bytes) (r : TraceRecord)
    → parse_trace_record json line ≡ some r
    → values_of (record_line json) (line ∷ lines) ≡ line ∷ values_of (record_line json) lines
unfolding values_of record_line
records_kept json line lines r h = rw (h, values_of, record_line)

pub check_lines-Checked :
    (json : JsonLibrary) (lines : List Bytes) (p : Checking)
    → length p.well_formed_lines + length (record_lines json lines) ≤ max_trace_lines
    → Checked json p (contents lines) (record_lines json lines) (check_lines json lines p)
unfolding check_lines values_of count_tools
check_lines-Checked json [] p room = record {
  kept = sym (append-nil p.well_formed_lines);
  within = refl;
  total = omega arith;
  balance = refl;
  calls = omega arith;
  by_tool = refl;
  unsorted = refl;
}
check_lines-Checked json (raw ∷ lines) p room =
    let text = drop_trailing_carriage_return raw in
    let of = values_of (record_line json) in
    elim (Bool-cases (is_empty text)) [
      | inl blank ↦
          let cs = contents_blank json raw lines blank in
          subst (λ q. Checked json p (contents (raw ∷ lines)) (record_lines json (raw ∷ lines)) q)
            (sym (check_blank json raw lines p blank))
            (subst (λ t. Checked json p t (of t) (check_lines json lines p)) (sym cs)
              (check_lines-Checked json lines p (
                subst (λ t. length p.well_formed_lines + length (of t) ≤ max_trace_lines) cs room)))
      | inr full ↦
          let cs = contents_full json raw lines full in
          let room_here : length p.well_formed_lines + length (of (text ∷ contents lines))
              ≤ max_trace_lines =
            subst (λ t. length p.well_formed_lines + length (of t) ≤ max_trace_lines) cs room in
          subst (λ t. Checked json p t (of t) (check_lines json (raw ∷ lines) p)) (sym cs)
            (elim (Option-cases (parse_trace_record json text)) [
              | inl bad ↦
                  let rs = records_dropped json text (contents lines) bad in
                  let q = check_lines json lines (dropped_line p) in
                  subst (λ t. Checked json p (text ∷ contents lines) (of (text ∷ contents lines)) t)
                    (sym (check_dropped json raw lines p full bad))
                    (subst (λ t. Checked json p (text ∷ contents lines) t q) (sym rs)
                      (after_dropped json p q text (contents lines) (record_lines json lines) (
                        check_lines-Checked json lines (dropped_line p) (
                          subst (λ t. length p.well_formed_lines + length t ≤ max_trace_lines) rs
                            room_here))))
              | inr (r, good) ↦
                  let rs = records_kept json text (contents lines) r good in
                  let p2 = kept_line r.tool text p in
                  let q = check_lines json lines p2 in
                  let room_next : length p.well_formed_lines
                        + suc (length (record_lines json lines))
                      ≤ max_trace_lines =
                    subst (λ t. length p.well_formed_lines + length t ≤ max_trace_lines) rs
                      room_here in
                  subst (λ t. Checked json p (text ∷ contents lines) (of (text ∷ contents lines)) t)
                    (sym (check_kept json raw lines p r full good (omega (arith, room_next))))
                    (subst (λ t. Checked json p (text ∷ contents lines) t q) (sym rs)
                      (after_kept json p q text r (contents lines) (record_lines json lines) good (
                        check_lines-Checked json lines p2 (
                          omega
                            (arith, room_next, length-append p.well_formed_lines (text ∷ []))))))
            ])
    ]
