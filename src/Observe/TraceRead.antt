-- ===== src/Observe/TraceRead.antt =====
-- src/observe/trace_read.cpp: one line of a trace as a record, and a trace as a list of records. The
-- JSON library is an argument.
use bomwerk.Prelude.{
  ℕ, suc, ◌*◌, ℤ, Bool, true, false, Option, none, some, List, [], ◌∷◌, ◌++◌, Bytes, codes,
  is_empty, length, ltb, leb, ◌==◌, ◌>>=◌, if◌then◌else◌, to_text,
}
use bomwerk.Core.JsonUtils.{exceeds_json_nesting_depth}
use bomwerk.Core.Warnings.{Result, result, warn}
use bomwerk.Core.Warnings.Code.{
  observe_trace_not_written, observe_trace_malformed_lines, observe_trace_exceeds_limit,
}

-- What parse_trace_record asks of nlohmann::json: the value of a text, `none` where it is discarded,
-- the value of a key of an object, and the text, the elements or the number of a value of that kind.
pub record JsonLibrary : Type 1 where
  pub Value : Type 0
  pub parse : Bytes → Option Value
  pub is_object : Value → Bool
  pub field : Value → Bytes → Option Value
  pub string_of : Value → Option Bytes
  pub array_of : Value → Option (List Value)
  pub integer_of : Value → Option ℤ

pub record TraceRecord : Type 0 where
  pub tool : Bytes
  pub arguments : List Bytes
  pub working_directory : Bytes
  pub process_id : ℤ

abbrev pub max_trace_lines : ℕ
max_trace_lines = 1000000

abbrev pub max_trace_line_bytes : ℕ
max_trace_line_bytes = 1024 * 1024

abbrev pub max_trace_record_json_depth : ℕ
max_trace_record_json_depth = 4

unfoldable pub drop_trailing_carriage_return : Bytes → Bytes
drop_trailing_carriage_return [] = []
drop_trailing_carriage_return (c ∷ []) = if c == b'\r' then [] else c ∷ []
drop_trailing_carriage_return (c ∷ d ∷ line) = c ∷ drop_trailing_carriage_return (d ∷ line)

-- The loop over `argv`.
unfoldable pub argument_texts : (json : JsonLibrary) → List json.Value → Option (List Bytes)
argument_texts json [] = some []
argument_texts json (value ∷ values) = do
  argument ← json.string_of value
  arguments ← argument_texts json values
  some (argument ∷ arguments)

unfoldable pub record_of : (json : JsonLibrary) → json.Value → Option TraceRecord
unfolding argument_texts
record_of json parsed = do
  tool_field ← json.field parsed (codes "tool")
  tool ← json.string_of tool_field
  argv_field ← json.field parsed (codes "argv")
  values ← json.array_of argv_field
  cwd_field ← json.field parsed (codes "cwd")
  cwd ← json.string_of cwd_field
  pid_field ← json.field parsed (codes "pid")
  pid ← json.integer_of pid_field
  arguments ← argument_texts json values
  some (record { tool = tool; arguments = arguments; working_directory = cwd; process_id = pid })

unfoldable pub parse_trace_record : JsonLibrary → Bytes → Option TraceRecord
unfolding record_of
parse_trace_record json line =
    if ltb max_trace_line_bytes (length line)
    then none
    else if exceeds_json_nesting_depth line max_trace_record_json_depth
    then none
    else json.parse line >>= λ parsed. if json.is_object parsed then record_of json parsed else none

abbrev pub prepend : ℕ → List Bytes → List Bytes
prepend c [] = (c ∷ []) ∷ []
prepend c (line ∷ lines) = (c ∷ line) ∷ lines

-- What std::getline reads, call by call.
unfoldable pub trace_lines : Bytes → List Bytes
trace_lines [] = []
trace_lines (c ∷ bytes) =
    let lines = trace_lines bytes in if c == b'\n' then [] ∷ lines else prepend c lines

-- The variables of the loop of read_trace.
pub record Reading : Type 0 where
  pub records : List TraceRecord
  pub total_lines : ℕ
  pub malformed_lines : ℕ
  pub exceeded_line_budget : Bool

abbrev pub push_record : Option TraceRecord → Reading → Reading
push_record none p = record p { malformed_lines = suc p.malformed_lines }
push_record (some r) p = record p { records = p.records ++ r ∷ [] }

unfoldable pub read_lines : JsonLibrary → List Bytes → Reading → Reading
unfolding drop_trailing_carriage_return parse_trace_record
read_lines json [] p = p
read_lines json (raw ∷ lines) p =
    let line = drop_trailing_carriage_return raw in
    let counted = record p { total_lines = suc p.total_lines } in
    elim (is_empty line) [
      | true ↦ read_lines json lines p
      | false ↦ elim (leb max_trace_lines (length p.records)) [
        | true ↦ record counted { exceeded_line_budget = true }
        | false ↦ read_lines json lines (push_record (parse_trace_record json line) counted)
      ]
    ]

unfoldable pub malformed_warning : Reading → Result (List TraceRecord) → Result (List TraceRecord)
malformed_warning p r =
    if ltb 0 p.malformed_lines
    then warn observe_trace_malformed_lines
        (to_text p.malformed_lines
          ++ codes " of "
          ++ to_text p.total_lines
          ++ codes
              " trace lines were unreadable and have been dropped; the recorded build is incomplete, so a component may be reported unused that was in fact compiled")
        r
    else r

unfoldable pub budget_warning : Reading → Result (List TraceRecord) → Result (List TraceRecord)
budget_warning p r =
    if p.exceeded_line_budget
    then warn observe_trace_exceeds_limit
        (codes "trace exceeds "
          ++ to_text max_trace_lines
          ++ codes
              " lines; the rest was not read, so a component may be reported unused that was in fact compiled")
        r
    else r

abbrev pub no_reading : Reading
no_reading = record {
  records = [];
  total_lines = 0;
  malformed_lines = 0;
  exceeded_line_budget = false;
}

-- `none` is a file that does not open.
unfoldable pub read_trace : JsonLibrary → Bytes → Option Bytes → Result (List TraceRecord)
unfolding trace_lines read_lines malformed_warning budget_warning
read_trace json trace_path none =
    warn observe_trace_not_written
      (codes "no trace file to read at "
        ++ trace_path
        ++ codes "; nothing was observed, so no component can be shown to be used")
      (result [])
read_trace json trace_path (some bytes) =
    let p = read_lines json (trace_lines bytes) no_reading in
    budget_warning p (malformed_warning p (result p.records))
