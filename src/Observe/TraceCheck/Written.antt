-- ===== src/Observe/TraceCheck/Written.antt =====
-- The traces that src/observe/trace_line.cpp and src/observe/trace_writer.cpp write, in
-- src/observe/trace_check.cpp.
use mathlib.Core.List.{Permᴰ}
use bomwerk.Prelude.{
  suc, ◌≤◌, ◌≡◌, refl, sym, ap, ap₂, ◌∙◌, subst, false, some, List, [], ◌∷◌, ◌++◌, append_assoc,
  arith, Bytes, codes, All, length, map, ◌==◌,
}
use bomwerk.Observe.TraceLine.{build_trace_line}
use bomwerk.Observe.TraceLine.OneLine.{IsFromSpace, build_trace_line_lem}
use bomwerk.Observe.TraceRead.{
  JsonLibrary, TraceRecord, max_trace_lines, drop_trailing_carriage_return, trace_lines,
}
use bomwerk.Observe.TraceCheck.{written_text, validate_and_sort_trace}
use bomwerk.Observe.TraceCheck.Outcome.{replaced}
use bomwerk.Observe.TraceCheck.Lines.{IsLine, EndsPlain, trace_lines-written_text}
use bomwerk.Observe.TraceCheck.Again.{Clean, validate_and_sort_trace-Clean}
use bomwerk.Observe.TraceCheck.Order.{validate_and_sort_trace-permuted}

-- The line of a call without its newline, with what is known of it.
abbrev call_line :
    (r : TraceRecord)
    → (body : Bytes) × (build_trace_line r.tool r.arguments r.working_directory r.process_id
        ≡ body ++ codes "\n")
      × All IsFromSpace body
call_line r = build_trace_line_lem r.tool r.arguments r.working_directory r.process_id

-- The lines of these calls behind each other.
abbrev pub written_calls : List TraceRecord → Bytes
written_calls [] = []
written_calls (r ∷ calls) =
    build_trace_line r.tool r.arguments r.working_directory r.process_id ++ written_calls calls

abbrev pub call_lines : List TraceRecord → List Bytes
call_lines calls = map (λ r. (call_line r).0) calls

written_calls_text :
    (calls : List TraceRecord) → written_calls calls ≡ written_text (call_lines calls)
unfolding written_text
written_calls_text [] = refl
written_calls_text (r ∷ calls) =
    ap₂ (λ a b. a ++ b) (call_line r).1 (written_calls_text calls)
    ∙ append_assoc (call_line r).0 (codes "\n") (written_text (call_lines calls))

from_space-IsLine : (line : Bytes) → All IsFromSpace line → IsLine line
from_space-IsLine [] h = tt
from_space-IsLine (c ∷ line) (hc, h) = (ground arith, from_space-IsLine line h)

from_space_kept : (line : Bytes) → All IsFromSpace line → drop_trailing_carriage_return line ≡ line
unfolding drop_trailing_carriage_return
from_space_kept [] h = refl
from_space_kept (c ∷ []) (hc, h) =
    let other : (c == b'\r') ≡ false = ground arith in rw (other, drop_trailing_carriage_return)
from_space_kept (c ∷ d ∷ line) (hc, h) = ap (λ t. c ∷ t) (from_space_kept (d ∷ line) h)

call_lines-IsLine : (calls : List TraceRecord) → All IsLine (call_lines calls)
call_lines-IsLine [] = tt
call_lines-IsLine (r ∷ calls) =
    (from_space-IsLine (call_line r).0 (call_line r).2, call_lines-IsLine calls)

call_lines-EndsPlain : (calls : List TraceRecord) → All EndsPlain (call_lines calls)
call_lines-EndsPlain [] = tt
call_lines-EndsPlain (r ∷ calls) =
    let kept = from_space_kept (call_line r).0 (call_line r).2 in
    (ap drop_trailing_carriage_return kept, call_lines-EndsPlain calls)

lines-written_calls :
    (calls : List TraceRecord) → trace_lines (written_calls calls) ≡ call_lines calls
lines-written_calls calls =
    ap trace_lines (written_calls_text calls)
    ∙ trace_lines-written_text (call_lines calls) (call_lines-IsLine calls)

length-call_lines : (calls : List TraceRecord) → length (call_lines calls) ≡ length calls
length-call_lines [] = refl
length-call_lines (r ∷ calls) = ap suc (length-call_lines calls)

call_lines-permuted : {a b : List TraceRecord} → Permᴰ a b → Permᴰ (call_lines a) (call_lines b)
call_lines-permuted Permᴰ.nil = Permᴰ.nil
call_lines-permuted (Permᴰ.cons e d) =
    Permᴰ.cons (ap (λ r. (call_line r).0) e) (call_lines-permuted d)
call_lines-permuted (Permᴰ.swap e h) =
    Permᴰ.swap (ap (λ r. (call_line r).0) e) (ap (λ r. (call_line r).0) h)
call_lines-permuted (Permᴰ.trans d e) = Permᴰ.trans (call_lines-permuted d) (call_lines-permuted e)

-- A trace of such lines is checked, rewritten and read as a clean one.
pub written_calls-Clean :
    (json : JsonLibrary) (trace_path trace : Bytes) (calls : List TraceRecord)
    → length calls ≤ max_trace_lines
    → (validate_and_sort_trace json trace_path replaced (some (written_calls calls))).1 ≡ some trace
    → Clean json trace_path (written_calls calls) trace
written_calls-Clean json trace_path trace calls room e =
    let same = sym (lines-written_calls calls) in
    validate_and_sort_trace-Clean json trace_path (written_calls calls) trace
      (subst (λ ls. length ls ≤ max_trace_lines) same
        (omega (arith, room, length-call_lines calls)))
      (subst (All EndsPlain) same (call_lines-EndsPlain calls)) e

-- Two traces of the same calls, process ids included, become the same file, byte for byte, with the
-- same warnings and counts, in whatever order the calls were recorded: for up to a million calls of
-- whatever content, where the rewritten copy takes the place of the trace.
pub written_calls-permuted :
    (json : JsonLibrary) (trace_path : Bytes) (a b : List TraceRecord)
    → Permᴰ a b
    → length a ≤ max_trace_lines
    → validate_and_sort_trace json trace_path replaced (some (written_calls a))
      ≡ validate_and_sort_trace json trace_path replaced (some (written_calls b))
written_calls-permuted json trace_path a b same room =
    let la = sym (lines-written_calls a) in
    let lb = sym (lines-written_calls b) in
    validate_and_sort_trace-permuted json trace_path (written_calls a) (written_calls b)
      (subst (λ ls. Permᴰ (trace_lines (written_calls a)) ls) lb
        (subst (λ ls. Permᴰ ls (call_lines b)) la (call_lines-permuted same)))
      (subst (λ ls. length ls ≤ max_trace_lines) la (omega (arith, room, length-call_lines a)))
