-- ===== src/Observe/TraceCheck.antt =====
-- src/observe/trace_check.cpp: the pass over a finished trace that counts its lines and rewrites it in
-- order. The JSON library, the bytes of the file and what the file system does are arguments.
pub mod Loop
pub mod Outcome
pub mod Lines
pub mod Tools
pub mod Order
pub mod Again
pub mod Written
use bomwerk.Prelude.{
  ℕ, suc, Bool, true, false, not, Option, none, some, List, [], ◌∷◌, ◌++◌, Bytes, codes, equal,
  less, is_empty, length, ltb, sort_by, if◌then◌else◌, to_text,
}
use bomwerk.Core.Warnings.{Result, result, warn}
use bomwerk.Core.Warnings.Code.{
  WarningCode, observe_trace_not_written, observe_trace_malformed_lines,
  observe_trace_exceeds_limit, observe_trace_rewrite_failed,
}
use bomwerk.Observe.TraceRead.{
  JsonLibrary, TraceRecord, max_trace_lines, drop_trailing_carriage_return, parse_trace_record,
  trace_lines,
}

pub record TraceStats : Type 0 where
  pub total_lines : ℕ
  pub malformed_lines : ℕ
  pub sorted_lines : ℕ
  pub invocations_by_tool : List (Bytes × ℕ)

-- ++invocations_by_tool[tool_name]
unfoldable pub count_tool : Bytes → List (Bytes × ℕ) → List (Bytes × ℕ)
count_tool tool_name [] = (tool_name, 1) ∷ []
count_tool tool_name ((name, n) ∷ entries) =
    let rest = count_tool tool_name entries in
    if equal name tool_name
    then (name, suc n) ∷ entries
    else if less tool_name name
    then (tool_name, 1) ∷ (name, n) ∷ entries
    else (name, n) ∷ rest

-- The variables of the loop.
pub record Checking : Type 0 where
  pub stats : TraceStats
  pub well_formed_lines : List Bytes
  pub exceeded_line_budget : Bool

abbrev pub keep_line : Bytes → Checking → Checking
keep_line line p =
    if ltb (length p.well_formed_lines) max_trace_lines
    then record p { well_formed_lines = p.well_formed_lines ++ line ∷ [] }
    else record p { exceeded_line_budget = true }

abbrev pub counted : TraceStats → TraceStats
counted stats = record stats { total_lines = suc stats.total_lines }

abbrev pub malformed : TraceStats → TraceStats
malformed stats = record stats { malformed_lines = suc stats.malformed_lines }

abbrev pub invoked : Bytes → TraceStats → TraceStats
invoked tool_name stats = record stats {
  invocations_by_tool = count_tool tool_name stats.invocations_by_tool;
}

-- What the loop does with the result of is_trace_record.
unfoldable pub judge_line : Option TraceRecord → Bytes → Checking → Checking
unfolding count_tool
judge_line none line p = record p { stats = malformed (counted p.stats) }
judge_line (some r) line p = keep_line line (record p { stats = invoked r.tool (counted p.stats) })

unfoldable pub check_lines : JsonLibrary → List Bytes → Checking → Checking
unfolding judge_line
check_lines json [] p = p
check_lines json (raw ∷ lines) p =
    let line = drop_trailing_carriage_return raw in
    elim (is_empty line) [
      | true ↦ check_lines json lines p
      | false ↦ check_lines json lines (judge_line (parse_trace_record json line) line p)
    ]

-- The text that rewrite_trace streams.
unfoldable pub written_text : List Bytes → Bytes
written_text [] = []
written_text (line ∷ lines) = line ++ b'\n' ∷ written_text lines

-- Whether the temporary file opens, takes all that is written and can be renamed.
pub record RewriteOutcome : Type 0 where
  pub opened : Bool
  pub all_written : Bool
  pub renamed : Bool

-- The result with the trace that is then there.
unfoldable pub rewrite_trace : RewriteOutcome → List Bytes → Bytes → Bool × Bytes
unfolding written_text
rewrite_trace outcome lines trace =
    if not outcome.opened
    then (false, trace)
    else if not outcome.all_written
    then (false, trace)
    else if outcome.renamed
    then (true, written_text lines)
    else (false, trace)

unfoldable pub warn_malformed : TraceStats → Result TraceStats → Result TraceStats
warn_malformed stats r =
    if ltb 0 stats.malformed_lines
    then warn observe_trace_malformed_lines
        (to_text stats.malformed_lines
          ++ codes " of "
          ++ to_text stats.total_lines
          ++ codes
              " trace lines were unreadable and have been dropped. Concurrent writes may have interleaved; the recorded build is incomplete")
        r
    else r

abbrev no_stats : TraceStats
no_stats = record {
  total_lines = 0;
  malformed_lines = 0;
  sorted_lines = 0;
  invocations_by_tool = [];
}

abbrev pub nothing_checked : Checking
nothing_checked = record { stats = no_stats; well_formed_lines = []; exceeded_line_budget = false }

abbrev pub sorted_stats : List Bytes → Result TraceStats → Result TraceStats
sorted_stats lines r = record r { value = record r.value { sorted_lines = length lines } }

abbrev pub after_rewrite :
    Bytes → List Bytes → Result TraceStats → Bool × Bytes → Result TraceStats × Bytes
after_rewrite trace_path lines r (true, trace) = (sorted_stats lines r, trace)
after_rewrite trace_path lines r (false, trace) = (
  warn observe_trace_rewrite_failed
      (codes "could not rewrite "
        ++ trace_path
        ++ codes " in canonical order; it is still valid but not byte-reproducible")
      r,
  trace,
)

-- What follows the loop.
unfoldable pub finish_check : Bytes → RewriteOutcome → Bytes → Checking → Result TraceStats × Bytes
unfolding warn_malformed rewrite_trace
finish_check trace_path outcome trace p =
    let warned = warn_malformed p.stats (result p.stats) in
    let lines = sort_by less p.well_formed_lines in
    if p.exceeded_line_budget
    then (
      warn observe_trace_exceeds_limit
          (codes "trace exceeds "
            ++ to_text max_trace_lines
            ++ codes " lines; left in write order instead of canonical order")
          warned,
      trace,
    )
    else after_rewrite trace_path lines warned (rewrite_trace outcome lines trace)

-- The result with the trace that is then there; `none` is a file that does not open.
unfoldable pub validate_and_sort_trace :
    JsonLibrary → Bytes → RewriteOutcome → Option Bytes → Result TraceStats × Option Bytes
unfolding check_lines finish_check
validate_and_sort_trace json trace_path outcome none = (
  warn observe_trace_not_written (codes "no trace file was written at " ++ trace_path)
      (result no_stats),
  none,
)
validate_and_sort_trace json trace_path outcome (some bytes) =
    let checked =
      finish_check trace_path outcome bytes
        (check_lines json (trace_lines bytes) nothing_checked) in
    (checked.0, some checked.1)
