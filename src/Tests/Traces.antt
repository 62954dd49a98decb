-- ===== src/Tests/Traces.antt =====
-- Runs on trace lines: src/observe/trace_line.cpp.
use bomwerk.Prelude.{
  starts_with, ℕ, ◌≢◌, ◌↔◌, true, false, none, refl, ℤ, ◌≡◌, arith, some, List, [], ◌∷◌, ◌++◌,
  Bytes, codes, All,
}
use bomwerk.Observe.TraceLine.{json_string, json_body, escaped_ascii, build_trace_line}
use bomwerk.Observe.TraceLine.Utf8.{IsUtf8}
use bomwerk.Observe.TraceLine.ReadBack.{
  Reading, is_hex, hex_value, short_escape, utf8_of, json_read, json_string_lem,
}
use bomwerk.Observe.TraceLine.OneLine.{IsFromSpace, build_trace_line_lem}
use bomwerk.Core.JsonUtils.{without_utf8_bom, exceeds_json_nesting_depth}
use bomwerk.Core.JsonUtils.TraceDepth.{exceeds-build_trace_line}
use bomwerk.Observe.TraceWriter.{
  WriteResult, wrote, interrupted, failed, write_fully, LockResult, locked, lock_interrupted,
  refused, lock_fully, append_trace_line, Process, System, update, locking, writes, loop_ends,
  unlocks, lock, write, written, unlock, Reach, here, next,
}
use bomwerk.Observe.TraceWriter.WriteFully.{Leaves}
use bomwerk.Observe.TraceWriter.Append.{append_trace_line_lem, append_trace_line-Leaves}
use bomwerk.Observe.TraceWriter.Alone.{Returns, append_trace_line_iff}
use bomwerk.Observe.TraceWriter.Interleaved.{IsStart, IsTrace, reach-IsTrace}

abbrev call : List Bytes
call = codes "cc" ∷ codes "-DX=\"a\n\"" ∷ (0xFF ∷ codes ".c") ∷ []

build_trace_line_lem_example :
    (body : Bytes) × (build_trace_line (codes "cc") call (codes "/src") (ℤ.pos 42)
      ≡ body ++ codes "\n")
    × All IsFromSpace body
build_trace_line_lem_example = build_trace_line_lem (codes "cc") call (codes "/src") (ℤ.pos 42)

-- "é", a quote and a newline
abbrev accented : Bytes
accented = 0xC3 ∷ 0xA9 ∷ codes "\"\n"

accented-IsUtf8 : IsUtf8 accented
accented-IsUtf8 =
    IsUtf8.two 0xC3 0xA9 (codes "\"\n") (omega arith) (omega arith) (omega arith, omega arith)
      (IsUtf8.one b'"' (codes "\n") (omega arith) (IsUtf8.one b'\n' [] (omega arith) IsUtf8.finish))

json_string_lem_example :
    (body : Bytes) × (json_string accented ≡ b'"' ∷ (body ++ b'"' ∷ []))
    × (json_read Reading.plain body ≡ some accented)
json_string_lem_example = json_string_lem accented accented-IsUtf8

exceeds-build_trace_line_example :
    exceeds_json_nesting_depth
      (build_trace_line (codes "cc") (codes "[[[[\"{" ∷ []) (codes "/src") (ℤ.negsuc 0))
      4
    ≡ false
exceeds-build_trace_line_example =
    exceeds-build_trace_line (codes "cc") (codes "[[[[\"{" ∷ []) (codes "/src") (ℤ.negsuc 0)

nested : exceeds_json_nesting_depth (codes "{\"a\":[[1]]}") 2 ≡ true
unfolding exceeds_json_nesting_depth
nested = refl

quoted_brackets : exceeds_json_nesting_depth (codes "[\"\\\"[[\"]") 1 ≡ false
unfolding exceeds_json_nesting_depth
quoted_brackets = refl

bom_dropped : without_utf8_bom (0xEF ∷ 0xBB ∷ 0xBF ∷ codes "{}") ≡ codes "{}"
unfolding without_utf8_bom starts_with
bom_dropped = refl

append_trace_line_lem_example :
    append_trace_line
      (some (codes "trace"))
      true
      (lock_interrupted ∷ locked ∷ [])
      (wrote 2 ∷ interrupted ∷ wrote 9 ∷ wrote 1 ∷ [])
      (codes "old\n")
      (codes "ab\n")
    ≡ some (true, codes "old\nab\n")
append_trace_line_lem_example =
    append_trace_line_lem (codes "trace") (lock_interrupted ∷ locked ∷ [])
      (wrote 2 ∷ interrupted ∷ wrote 9 ∷ wrote 1 ∷ []) (codes "old\n") (codes "ab\n") (omega arith)
      tt (omega arith, (tt, (omega arith, (omega arith, tt)))) (omega arith)

append_trace_line-Leaves_example : Leaves (codes "old\n") (codes "ab\n") (
    append_trace_line
      (some (codes "trace"))
      true
      (locked ∷ [])
      (wrote 2 ∷ failed ∷ [])
      (codes "old\n")
      (codes "ab\n"))
append_trace_line-Leaves_example =
    append_trace_line-Leaves (some (codes "trace")) true (locked ∷ []) (wrote 2 ∷ failed ∷ [])
      (codes "old\n") (codes "ab\n")

not_locked :
    append_trace_line (some (codes "trace")) true (refused ∷ []) [] (codes "old\n") (codes "ab\n")
    ≡ some (false, codes "old\n")
unfolding append_trace_line lock_fully
not_locked = refl

abbrev idle_system : System
idle_system = record {
  file = codes "x\n";
  holder = none;
  process = λ j. Process.waiting (codes "ab\n");
}

abbrev line_of : ℕ → Bytes
line_of j = codes "ab\n"

abbrev idle-IsStart : IsStart line_of idle_system
idle-IsStart = record { unheld = refl; all_wait = λ j. refl }

-- Process 1 writes its line in two parts, while process 0 waits.
abbrev after_lock : System
after_lock = record idle_system {
  holder = some 1;
  process = update idle_system.process 1 (Process.writing (codes "ab\n") (codes "ab\n"));
}

abbrev after_part : System
after_part = record after_lock {
  file = codes "x\na";
  process = update after_lock.process 1 (Process.writing (codes "ab\n") (codes "b\n"));
}

abbrev after_rest : System
after_rest = record after_part {
  file = codes "x\nab\n";
  process = update after_part.process 1 (Process.writing (codes "ab\n") []);
}

abbrev after_write : System
after_write = record after_rest {
  process = update after_rest.process 1 (Process.unlocking (codes "ab\n") [] true);
}

abbrev after_unlock : System
after_unlock = record after_write {
  holder = none;
  process = update after_write.process 1 (Process.returned (codes "ab\n") true);
}

no_line_end : codes "ab\n" ≢ []
no_line_end h = ground arith

no_rest_end : codes "b\n" ≢ []
no_rest_end h = ground arith

abbrev one_line : Reach idle_system after_unlock
one_line =
    next 1 unlocks
      (next 1 loop_ends
        (next 1 (writes (wrote 2))
          (next 1 (writes (wrote 1))
            (next 1 (locking locked) here (lock (codes "ab\n") refl refl refl))
            (write (codes "ab\n") (codes "ab\n") 1 refl no_line_end refl))
          (write (codes "ab\n") (codes "b\n") 2 refl no_rest_end refl))
        (written (codes "ab\n") refl refl))
      (unlock (codes "ab\n") [] true refl refl)

reach-IsTrace_example : IsTrace line_of (codes "x\n") after_unlock
reach-IsTrace_example = reach-IsTrace line_of idle-IsStart one_line

abbrev lock_calls : List LockResult
lock_calls = lock_interrupted ∷ locked ∷ []

abbrev write_calls : List WriteResult
write_calls = wrote 1 ∷ interrupted ∷ wrote 2 ∷ wrote 1 ∷ []

append_trace_line_iff_example :
    (append_trace_line
        (some (codes "trace"))
        true
        lock_calls
        write_calls
        (codes "x\n")
        (codes "ab\n")
      ≡ some (true, codes "x\nab\n"))
    ↔ Returns idle_system 1 lock_calls write_calls (codes "ab\n") (codes "x\nab\n") true
append_trace_line_iff_example =
    append_trace_line_iff (codes "trace") lock_calls write_calls idle_system 1 (codes "ab\n")
      (codes "x\nab\n") true (omega arith) refl refl

one_call :
    append_trace_line
      (some (codes "trace"))
      true
      lock_calls
      write_calls
      (codes "x\n")
      (codes "ab\n")
    ≡ some (true, codes "x\nab\n")
unfolding append_trace_line lock_fully write_fully
one_call = refl

-- DEL stands in a line as it is; a quote does not.
del_written : json_string (0x7F ∷ []) ≡ b'"' ∷ 0x7F ∷ b'"' ∷ []
unfolding json_string json_body escaped_ascii
del_written = refl

quote_refused : json_read Reading.plain (codes "a\"") ≡ none
unfolding json_read
quote_refused = refl

control_refused : json_read Reading.plain (b'\n' ∷ []) ≡ none
unfolding json_read
control_refused = refl

escape_read : json_read Reading.plain (codes "\\u00e9\\n") ≡ some (0xC3 ∷ 0xA9 ∷ b'\n' ∷ [])
unfolding json_read is_hex hex_value short_escape utf8_of
escape_read = refl
