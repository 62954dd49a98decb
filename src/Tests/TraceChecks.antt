-- ===== src/Tests/TraceChecks.antt =====
-- Runs on finished traces: src/observe/trace_check.cpp and src/observe/trace_read.cpp.
use mathlib.Core.List.{Permᴰ}
use bomwerk.Prelude.{
  decimal_digits, ◌≡◌, refl, ℤ, pos, Bool, true, false, Option, none, some, List, [], ◌∷◌, arith,
  Bytes, codes, equal, drop, starts_with, less, sort_by, insert_by, if◌then◌else◌,
}
use bomwerk.Observe.TraceLine.{
  build_trace_line, json_string, json_arguments, further_arguments, json_body, escaped_ascii,
}
use bomwerk.Core.JsonUtils.{exceeds_json_nesting_depth}
use bomwerk.Observe.TraceRead.{
  JsonLibrary, TraceRecord, parse_trace_record, trace_lines, drop_trailing_carriage_return,
}
use bomwerk.Observe.TraceCheck.{validate_and_sort_trace}
use bomwerk.Observe.TraceCheck.Outcome.{replaced}
use bomwerk.Observe.TraceCheck.Order.{validate_and_sort_trace-permuted}
use bomwerk.Observe.TraceCheck.Written.{written_calls, written_calls-permuted}
use bomwerk.Observe.TraceCheck.Again.{Clean, validate_and_sort_trace-Clean}

-- A library that takes a brace and a tool's name for a whole record.
data Item : Type 0 where
  whole : Bytes → Item
  text : Bytes → Item
  nothing : Item
  zero_number : Item

abbrev item_field : Item → Bytes → Option Item
item_field (whole line) key =
    if equal key (codes "tool")
    then some (Item.text (drop 1 line))
    else if equal key (codes "argv")
    then some Item.nothing
    else if equal key (codes "cwd")
    then some (Item.text [])
    else some Item.zero_number
item_field item key = none

abbrev item_object : Item → Bool
item_object (whole line) = true
item_object item = false

abbrev item_text : Item → Option Bytes
item_text (text s) = some s
item_text item = none

abbrev item_list : Item → Option (List Item)
item_list nothing = some []
item_list item = none

abbrev item_integer : Item → Option ℤ
item_integer zero_number = some (pos 0)
item_integer item = none

abbrev braces : JsonLibrary
braces = record {
  Value = Item;
  parse = λ line. if starts_with line (codes "{") then some (Item.whole line) else none;
  is_object = item_object;
  field = item_field;
  string_of = item_text;
  array_of = item_list;
  integer_of = item_integer;
}

abbrev trace_a : Bytes
trace_a = codes "{ld\n\n{cc\r\nx\n{cc"

abbrev trace_b : Bytes
trace_b = codes "\n{ld\n{cc\r\nx\n{cc\n"

lines_of_a : trace_lines trace_a ≡ codes "{ld" ∷ [] ∷ codes "{cc\r" ∷ codes "x" ∷ codes "{cc" ∷ []
unfolding trace_lines
lines_of_a = refl

rewritten :
    (validate_and_sort_trace braces (codes "t") replaced (some trace_a)).1
    ≡ some (codes "{cc\n{cc\n{ld\n")
unfolding validate_and_sort_trace parse_trace_record exceeds_json_nesting_depth starts_with equal
    trace_lines drop_trailing_carriage_return sort_by insert_by less
rewritten = refl

counts : (validate_and_sort_trace braces (codes "t") replaced (some trace_a)).0.value ≡ record {
  total_lines = 4;
  malformed_lines = 1;
  sorted_lines = 3;
  invocations_by_tool = (codes "cc", 2) ∷ (codes "ld", 1) ∷ [];
}
unfolding validate_and_sort_trace parse_trace_record exceeds_json_nesting_depth starts_with equal
    trace_lines drop_trailing_carriage_return sort_by insert_by less
counts = refl

validate_and_sort_trace-permuted_example :
    validate_and_sort_trace braces (codes "t") replaced (some trace_a)
    ≡ validate_and_sort_trace braces (codes "t") replaced (some trace_b)
unfolding trace_lines
validate_and_sort_trace-permuted_example =
    validate_and_sort_trace-permuted braces (codes "t") trace_a trace_b (Permᴰ.swap refl refl)
      (omega arith)

validate_and_sort_trace-Clean_example : Clean braces (codes "t") trace_a (codes "{cc\n{cc\n{ld\n")
unfolding trace_lines drop_trailing_carriage_return
validate_and_sort_trace-Clean_example =
    validate_and_sort_trace-Clean braces (codes "t") trace_a (codes "{cc\n{cc\n{ld\n") (omega arith)
      (refl, (refl, (refl, (refl, (refl, tt))))) rewritten

abbrev compile_call : TraceRecord
compile_call = record {
  tool = codes "cc";
  arguments = codes "cc" ∷ codes "a\n.c" ∷ [];
  working_directory = codes "/src";
  process_id = pos 7;
}

abbrev link_call : TraceRecord
link_call = record {
  tool = codes "ld";
  arguments = [];
  working_directory = codes "/src";
  process_id = pos 8;
}

written_calls-permuted_example :
    validate_and_sort_trace braces
      (codes "t")
      replaced
      (some (written_calls (compile_call ∷ link_call ∷ [])))
    ≡ validate_and_sort_trace braces
        (codes "t")
        replaced
        (some (written_calls (link_call ∷ compile_call ∷ [])))
written_calls-permuted_example =
    written_calls-permuted braces (codes "t") (compile_call ∷ link_call ∷ [])
      (link_call ∷ compile_call ∷ []) (Permᴰ.swap refl refl) (omega arith)

-- The same call by another process.
abbrev later_call : TraceRecord
later_call = record compile_call { process_id = pos 9 }

one_file :
    (validate_and_sort_trace braces
      (codes "t")
      replaced
      (some (written_calls (compile_call ∷ [])))).1
    ≡ some (written_calls (compile_call ∷ []))
unfolding validate_and_sort_trace parse_trace_record exceeds_json_nesting_depth starts_with equal
    trace_lines drop_trailing_carriage_return sort_by insert_by less build_trace_line json_string
    json_arguments further_arguments json_body escaped_ascii decimal_digits
one_file = refl

-- The process id is a part of the line, so a second run of one build, whose processes have other
-- ids, has another trace.
other_file : equal (written_calls (compile_call ∷ [])) (written_calls (later_call ∷ [])) ≡ false
unfolding equal build_trace_line json_string json_arguments further_arguments json_body
    escaped_ascii decimal_digits
other_file = refl
