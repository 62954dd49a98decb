-- ===== src/Observe/TraceWriter/Append.antt =====
-- `append_trace_line` of src/observe/trace_writer.cpp, run by one process.
use bomwerk.Prelude.{
  ◌≤◌, ◌≡◌, refl, sym, Bool, true, false, Option, none, some, List, [], ◌∷◌, ◌++◌, append-nil,
  arith, Bytes, All, length,
}
use bomwerk.Observe.TraceWriter.{
  WriteResult, write_fully, LockResult, locked, lock_interrupted, refused, lock_fully,
  append_trace_line,
}
use bomwerk.Observe.TraceWriter.WriteFully.{
  IsGood, write_count, write_fully_lem, Leaves, write_fully-Leaves,
}

-- The lock is given at the end, after signals only.
abbrev pub IsGranted : List LockResult → Type 0
IsGranted [] = ⊥
IsGranted (locked ∷ results) = Unit
IsGranted (lock_interrupted ∷ results) = IsGranted results
IsGranted (refused ∷ results) = ⊥

lock_fully_lem : (results : List LockResult) → IsGranted results → lock_fully results ≡ some true
unfolding lock_fully
lock_fully_lem [] h = absurd h
lock_fully_lem (locked ∷ results) h = refl
lock_fully_lem (lock_interrupted ∷ results) h = lock_fully_lem results h
lock_fully_lem (refused ∷ results) h = absurd h

-- With a path, an opened file, a lock that is given at last and writes of which none fails, as many
-- as the line has bytes, the call returns `true` and the file has the whole line at its end: signals
-- and short writes lose nothing.
pub append_trace_line_lem :
    (path : Bytes) (locks : List LockResult) (writes : List WriteResult) (file line : Bytes)
    → 1 ≤ length path
    → IsGranted locks
    → All IsGood writes
    → length line ≤ write_count writes
    → append_trace_line (some path) true locks writes file line ≡ some (true, file ++ line)
unfolding append_trace_line
append_trace_line_lem [] locks writes file line named granted good enough = absurd (omega arith)
append_trace_line_lem (c ∷ path) locks writes file line named granted good enough =
    rw (lock_fully_lem locks granted, append_trace_line)
      (write_fully_lem writes file line good enough)

unchanged : (file line : Bytes) → Leaves file line (some (false, file))
unchanged file line = ([], line, refl, sym (append-nil file))

behind_lock-Leaves :
    (held : Option Bool) (writes : List WriteResult) (file line : Bytes)
    → Leaves file line (elim held as (λ x. Option (Bool × Bytes)) [
      | none ↦ none
      | some true ↦ write_fully writes file line
      | some false ↦ some (false, file)
    ])
behind_lock-Leaves none writes file line = tt
behind_lock-Leaves (some true) writes file line = write_fully-Leaves writes file line
behind_lock-Leaves (some false) writes file line = unchanged file line

-- Whatever the system calls give: the file only grows, by a front of the line, and the call returns
-- `true` only where it is the whole line.
pub append_trace_line-Leaves :
    (path : Option Bytes) (opened : Bool) (locks : List LockResult) (writes : List WriteResult)
    (file line : Bytes)
    → Leaves file line (append_trace_line path opened locks writes file line)
unfolding append_trace_line
append_trace_line-Leaves none opened locks writes file line = unchanged file line
append_trace_line-Leaves (some []) opened locks writes file line = unchanged file line
append_trace_line-Leaves (some (c ∷ path)) false locks writes file line = unchanged file line
append_trace_line-Leaves (some (c ∷ path)) true locks writes file line =
    behind_lock-Leaves (lock_fully locks) writes file line
