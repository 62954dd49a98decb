-- ===== src/Observe/TraceCheck/Outcome.antt =====
-- What `validate_and_sort_trace` of src/observe/trace_check.cpp returns and leaves behind.
use mathlib.Core.List.{Permᴰ}
use bomwerk.Prelude.{
  suc, ◌+◌, ◌≤◌, ◌≡◌, refl, sym, ap, ap₂, ◌∙◌, subst, true, false, Option, some, List, [], ◌∷◌,
  arith, inl, inr, Bytes, Bool-cases, Option-cases, less, length, ltb, sort_by, sort_by-Permᴰ,
}
use bomwerk.Core.Warnings.{Result, result}
use bomwerk.Observe.TraceRead.{JsonLibrary, max_trace_lines, trace_lines}
use bomwerk.Observe.TraceCheck.{
  TraceStats, Checking, check_lines, nothing_checked, written_text, RewriteOutcome, rewrite_trace,
  warn_malformed, sorted_stats, finish_check, validate_and_sort_trace,
}
use bomwerk.Observe.TraceCheck.Loop.{
  values_of, content_of, record_line, contents, record_lines, calls_of, Checked,
  check_lines-Checked,
}

pub length-values_of :
    {A B : Type 0} (f : A → Option B) (xs : List A) → length (values_of f xs) ≤ length xs
unfolding values_of
length-values_of f [] = omega arith
length-values_of f (x ∷ xs) = elim (Option-cases (f x)) [
  | inl nothing ↦ rw (nothing, values_of) (omega (arith, length-values_of f xs))
  | inr (y, value) ↦ rw (value, values_of) (omega (arith, length-values_of f xs))
]

pub length-record_lines :
    (json : JsonLibrary) (lines : List Bytes) → length (record_lines json lines) ≤ length lines
length-record_lines json lines =
    omega (
      arith,
      length-values_of (record_line json) (contents lines),
      length-values_of content_of lines,
    )

pub length-permuted : {xs ys : List Bytes} → Permᴰ xs ys → length xs ≡ length ys
length-permuted Permᴰ.nil = refl
length-permuted (Permᴰ.cons e d) = ap suc (length-permuted d)
length-permuted (Permᴰ.swap e f) = refl
length-permuted (Permᴰ.trans d e) = length-permuted d ∙ length-permuted e

-- The temporary file is written and takes the place of the trace.
abbrev pub replaced : RewriteOutcome
replaced = record { opened = true; all_written = true; renamed = true }

pub warn_malformed-value :
    (stats : TraceStats) (r : Result TraceStats) → (warn_malformed stats r).value ≡ r.value
unfolding warn_malformed
warn_malformed-value stats r = elim (Bool-cases (ltb 0 stats.malformed_lines)) [
  | inl some_malformed ↦ rw (some_malformed, warn_malformed)
  | inr none_malformed ↦ rw (none_malformed, warn_malformed)
]

pub finish_check_lem :
    (trace_path trace : Bytes) (p : Checking)
    → p.exceeded_line_budget ≡ false
    → finish_check trace_path replaced trace p ≡ (
      sorted_stats (sort_by less p.well_formed_lines) (warn_malformed p.stats (result p.stats)),
      written_text (sort_by less p.well_formed_lines),
    )
unfolding finish_check rewrite_trace
finish_check_lem trace_path trace p h = rw (h, finish_check)

-- What is returned for a trace, and the trace that is there then.
pub record Validated (json : JsonLibrary) (bytes : Bytes) (out : Result TraceStats × Option Bytes)
    : Type 0 where
  pub file : out.1 ≡ some (written_text (sort_by less (record_lines json (trace_lines bytes))))
  pub total : out.0.value.total_lines ≡ length (contents (trace_lines bytes))
  pub balance : out.0.value.malformed_lines + out.0.value.sorted_lines ≡ out.0.value.total_lines
  pub sorted : out.0.value.sorted_lines ≡ length (record_lines json (trace_lines bytes))
  pub calls : calls_of out.0.value.invocations_by_tool ≡ out.0.value.sorted_lines

finished-Validated :
    (json : JsonLibrary) (trace_path bytes : Bytes) (q : Checking)
    → Checked json nothing_checked
        (contents (trace_lines bytes))
        (record_lines json (trace_lines bytes))
        q
    → Validated json bytes (
      sorted_stats (sort_by less q.well_formed_lines) (warn_malformed q.stats (result q.stats)),
      some (written_text (sort_by less q.well_formed_lines)),
    )
finished-Validated json trace_path bytes q v =
    let rs = record_lines json (trace_lines bytes) in
    let value = warn_malformed-value q.stats (result q.stats) in
    let sorted : length (sort_by less q.well_formed_lines) ≡ length rs =
      length-permuted (sort_by-Permᴰ less q.well_formed_lines) ∙ ap length v.kept in
    let total : q.stats.total_lines ≡ length (contents (trace_lines bytes)) =
      omega (arith, v.total) in
    let balance : q.stats.malformed_lines + length rs ≡ q.stats.total_lines =
      omega (arith, v.balance, total) in
    let calls : calls_of q.stats.invocations_by_tool ≡ length rs = omega (arith, v.calls) in
    record {
      file = ap (λ ls. some (written_text (sort_by less ls))) v.kept;
      total = ap (λ s. s.total_lines) value ∙ total;
      balance =
          ap₂ (λ s n. s.malformed_lines + n) value sorted
          ∙ balance
          ∙ sym (ap (λ s. s.total_lines) value);
      sorted = sorted;
      calls = ap (λ s. calls_of s.invocations_by_tool) value ∙ calls ∙ sym sorted;
    }

pub validate_and_sort_trace-Validated :
    (json : JsonLibrary) (trace_path bytes : Bytes)
    → length (trace_lines bytes) ≤ max_trace_lines
    → Validated json bytes (validate_and_sort_trace json trace_path replaced (some bytes))
unfolding validate_and_sort_trace
validate_and_sort_trace-Validated json trace_path bytes room =
    let lines = trace_lines bytes in
    let q = check_lines json lines nothing_checked in
    let v =
      check_lines-Checked json lines nothing_checked
        (omega (arith, room, length-record_lines json lines)) in
    subst (λ out. Validated json bytes (out.0, some out.1))
      (sym (finish_check_lem trace_path bytes q v.within))
      (finished-Validated json trace_path bytes q v)
