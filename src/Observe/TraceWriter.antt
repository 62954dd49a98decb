-- ===== src/Observe/TraceWriter.antt =====
-- src/observe/trace_writer.cpp: how the processes of a build append their lines to one trace. What
-- the system calls return is an argument, and so is the order in which the processes get their turn.
pub mod WriteFully
pub mod Append
pub mod Whole
pub mod Interleaved
pub mod Alone
use bomwerk.Prelude.{
  ℕ, ◌≡◌, ◌≢◌, Bool, true, false, Option, none, some, List, [], ◌∷◌, ◌++◌, Bytes, take, drop, ◌==◌,
  if◌then◌else◌,
}

-- What one call of ::write gives; a call writes a part of what it is handed.
pub data WriteResult : Type 0 where
  wrote : ℕ → WriteResult
  interrupted : WriteResult
  failed : WriteResult

-- write_fully on the file and what is left of the text: the result with the file, or `none` where
-- the results that are given end before the loop does.
unfoldable pub write_fully : List WriteResult → Bytes → Bytes → Option (Bool × Bytes)
write_fully results file [] = some (true, file)
write_fully [] file (c ∷ rest) = none
write_fully (wrote n ∷ results) file (c ∷ rest) =
    write_fully results (file ++ take n (c ∷ rest)) (drop n (c ∷ rest))
write_fully (interrupted ∷ results) file (c ∷ rest) = write_fully results file (c ∷ rest)
write_fully (failed ∷ results) file (c ∷ rest) = some (false, file)

-- What one call of ::flock for the lock gives.
pub data LockResult : Type 0 where
  locked : LockResult
  lock_interrupted : LockResult
  refused : LockResult

-- The loop around ::flock: whether the lock is held behind it.
unfoldable pub lock_fully : List LockResult → Option Bool
lock_fully [] = none
lock_fully (locked ∷ results) = some true
lock_fully (lock_interrupted ∷ results) = lock_fully results
lock_fully (refused ∷ results) = some false

-- A run that no other process interferes with: the path, where there is one, whether ::open gives a
-- descriptor, and what the calls of ::flock and ::write give.
unfoldable pub append_trace_line :
    Option Bytes → Bool → List LockResult → List WriteResult → Bytes → Bytes → Option (Bool × Bytes)
append_trace_line none opened locks writes file line = some (false, file)
append_trace_line (some []) opened locks writes file line = some (false, file)
append_trace_line (some (c ∷ path)) false locks writes file line = some (false, file)
append_trace_line (some (c ∷ path)) true locks writes file line = elim (lock_fully locks) [
  | none ↦ none
  | some true ↦ write_fully writes file line
  | some false ↦ some (false, file)
]

-- A process in `append_trace_line`, behind the call of ::open: it waits for the lock, is in
-- write_fully with what is left of its line, is about to unlock, or has returned.
pub data Process : Type 0 where
  waiting : Bytes → Process
  writing : Bytes → Bytes → Process
  unlocking : Bytes → Bytes → Bool → Process
  returned : Bytes → Bool → Process

-- The file, the process that holds the lock on it, and the processes by number.
pub record System : Type 0 where
  pub file : Bytes
  pub holder : Option ℕ
  pub process : ℕ → Process

abbrev pub update : (ℕ → Process) → ℕ → Process → ℕ → Process
update process i p j = if i == j then p else process j

-- What a process asks of the system and gets, or that its loop over ::write has ended.
pub data Event : Type 0 where
  locking : LockResult → Event
  writes : WriteResult → Event
  loop_ends : Event
  unlocks : Event

-- One step of process `i`. A call that a signal interrupts is made again, and a write of more than is
-- left writes what is left. What ::flock gives for the unlocking and what ::close gives is not looked
-- at.
pub data Step (s t : System) (i : ℕ) : Event → Type 0 where
  lock :
      (line : Bytes)
      → s.process i ≡ waiting line
      → s.holder ≡ none
      → t ≡ record s { holder = some i; process = update s.process i (writing line line) }
      → Step s t i (locking locked)
  lock_signal :
      (line : Bytes) → s.process i ≡ waiting line → t ≡ s → Step s t i (locking lock_interrupted)
  lock_fails :
      (line : Bytes)
      → s.process i ≡ waiting line
      → t ≡ record s { process = update s.process i (returned line false) }
      → Step s t i (locking refused)
  write :
      (line rest : Bytes) (n : ℕ)
      → s.process i ≡ writing line rest
      → rest ≢ []
      → t ≡ record s {
        file = s.file ++ take n rest;
        process = update s.process i (writing line (drop n rest));
      }
      → Step s t i (writes (wrote n))
  write_signal :
      (line rest : Bytes)
      → s.process i ≡ writing line rest
      → rest ≢ []
      → t ≡ s
      → Step s t i (writes interrupted)
  write_fails :
      (line rest : Bytes)
      → s.process i ≡ writing line rest
      → rest ≢ []
      → t ≡ record s { process = update s.process i (unlocking line rest false) }
      → Step s t i (writes failed)
  written :
      (line : Bytes)
      → s.process i ≡ writing line []
      → t ≡ record s { process = update s.process i (unlocking line [] true) }
      → Step s t i loop_ends
  unlock :
      (line rest : Bytes) (outcome : Bool)
      → s.process i ≡ unlocking line rest outcome
      → t ≡ record s { holder = none; process = update s.process i (returned line outcome) }
      → Step s t i unlocks

-- Steps of any processes, in any order.
pub data Reach (s : System) : System → Type 0 where
  here : Reach s s
  next : {t u : System} (i : ℕ) (e : Event) → Reach s t → Step t u i e → Reach s u
