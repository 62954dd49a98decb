-- ===== src/Observe/TraceWriter/Alone.antt =====
-- The call `append_trace_line` of src/observe/trace_writer.cpp as the steps of one process.
use bomwerk.Prelude.{
  ℕ, ◌≤◌, ◌≡◌, ◌↔◌, refl, sym, ap, ◌∙◌, subst, Bool, true, false, Option, none, some, List, [], ◌∷◌,
  ◌++◌, arith, Bytes, length, take, drop,
}
use bomwerk.Observe.TraceWriter.{
  WriteResult, wrote, interrupted, failed, write_fully, LockResult, locked, lock_interrupted,
  refused, lock_fully, append_trace_line, Process, waiting, writing, unlocking, returned, System,
  update, Event, locking, writes, loop_ends, unlocks, Step, lock, lock_signal, lock_fails, write,
  write_signal, write_fails, written, unlock,
}
use bomwerk.Observe.TraceWriter.Whole.{update_same}

-- The steps of process `i` alone.
pub data Run (i : ℕ) : System → List Event → System → Type 0 where
  stop : {s : System} → Run i s [] s
  step :
      {s u t : System} {e : Event} {es : List Event}
      → Step s u i e
      → Run i u es t
      → Run i s (e ∷ es) t

-- What the calls of ::flock for the lock give in a run, and those of ::write.
abbrev pub lock_results : List Event → List LockResult
lock_results [] = []
lock_results (locking r ∷ es) = r ∷ lock_results es
lock_results (writes r ∷ es) = lock_results es
lock_results (loop_ends ∷ es) = lock_results es
lock_results (unlocks ∷ es) = lock_results es

abbrev pub write_results : List Event → List WriteResult
write_results [] = []
write_results (locking r ∷ es) = write_results es
write_results (writes r ∷ es) = r ∷ write_results es
write_results (loop_ends ∷ es) = write_results es
write_results (unlocks ∷ es) = write_results es

-- A run of process `i` in which the system calls give the first of these results, and in which it
-- returns.
pub record Returns (s : System) (i : ℕ) (locks : List LockResult) (results : List WriteResult)
    (line after : Bytes) (outcome : Bool) : Type 0 where
  pub last : System
  pub events : List Event
  pub run : Run i s events last
  pub locks_left : List LockResult
  pub locks_used : locks ≡ lock_results events ++ locks_left
  pub writes_left : List WriteResult
  pub writes_used : results ≡ write_results events ++ writes_left
  pub file : last.file ≡ after
  pub at_end : last.process i ≡ returned line outcome

-- What is left of the call of a process.
unfoldable rest_of_call :
    Process → List LockResult → List WriteResult → Bytes → Option (Bool × Bytes)
rest_of_call (waiting line) locks results file = elim (lock_fully locks) [
  | none ↦ none
  | some true ↦ write_fully results file line
  | some false ↦ some (false, file)
]
rest_of_call (writing line rest) locks results file = write_fully results file rest
rest_of_call (unlocking line rest outcome) locks results file = some (outcome, file)
rest_of_call (returned line outcome) locks results file = some (outcome, file)

module _ (s u : System) (i : ℕ) (locks : List LockResult) (results : List WriteResult) where
  moves :
      (p q : Process) (holder : Option ℕ) (file : Bytes) (more_locks : List LockResult)
      (more_results : List WriteResult)
      → s.process i ≡ p
      → u ≡ record { file = file; holder = holder; process = update s.process i q }
      → rest_of_call p more_locks more_results s.file ≡ rest_of_call q locks results file
      → rest_of_call (s.process i) more_locks more_results s.file
        ≡ rest_of_call (u.process i) locks results u.file
  moves p q holder file more_locks more_results at new same =
      ap (λ x. rest_of_call x more_locks more_results s.file) at
      ∙ same
      ∙ ap (λ x. rest_of_call x locks results file) (sym (update_same s.process i q))
      ∙ ap (λ (t : System). rest_of_call (t.process i) locks results t.file) (sym new)

  stays :
      (p : Process) (more_locks : List LockResult) (more_results : List WriteResult)
      → s.process i ≡ p
      → u ≡ s
      → rest_of_call p more_locks more_results s.file ≡ rest_of_call p locks results s.file
      → rest_of_call (s.process i) more_locks more_results s.file
        ≡ rest_of_call (u.process i) locks results u.file
  stays p more_locks more_results at new same =
      ap (λ x. rest_of_call x more_locks more_results s.file) at
      ∙ same
      ∙ ap (λ x. rest_of_call x locks results s.file) (sym at)
      ∙ ap (λ (t : System). rest_of_call (t.process i) locks results t.file) (sym new)

  -- A step takes its result off the lists, and changes nothing else of the call.
  step_lem :
      (e : Event)
      → Step s u i e
      → rest_of_call
          (s.process i)
          (lock_results (e ∷ []) ++ locks)
          (write_results (e ∷ []) ++ results)
          s.file
        ≡ rest_of_call (u.process i) locks results u.file
  unfolding rest_of_call lock_fully write_fully
  step_lem e (lock line at unheld new) =
      moves (waiting line) (writing line line) (some i) s.file (locked ∷ locks) results at new refl
  step_lem e (lock_signal line at new) =
      stays (waiting line) (lock_interrupted ∷ locks) results at new refl
  step_lem e (lock_fails line at new) =
      moves (waiting line) (returned line false) s.holder s.file (refused ∷ locks) results at new
        refl
  step_lem e (write line [] n at more new) = absurd (more refl)
  step_lem e (write line (c ∷ rest) n at more new) =
      let q = writing line (drop n (c ∷ rest)) in
      let file = s.file ++ take n (c ∷ rest) in
      moves (writing line (c ∷ rest)) q s.holder file locks (wrote n ∷ results) at new refl
  step_lem e (write_signal line [] at more new) = absurd (more refl)
  step_lem e (write_signal line (c ∷ rest) at more new) =
      stays (writing line (c ∷ rest)) locks (interrupted ∷ results) at new refl
  step_lem e (write_fails line [] at more new) = absurd (more refl)
  step_lem e (write_fails line (c ∷ rest) at more new) =
      let q = unlocking line (c ∷ rest) false in
      moves (writing line (c ∷ rest)) q s.holder s.file locks (failed ∷ results) at new refl
  step_lem e (written line at new) =
      let q = unlocking line [] true in
      moves (writing line []) q s.holder s.file locks results at new refl
  step_lem e (unlock line rest outcome at new) =
      let q = returned line outcome in
      moves (unlocking line rest outcome) q none s.file locks results at new refl

lock_first :
    (e : Event) (es : List Event) (locks : List LockResult)
    → lock_results (e ∷ []) ++ (lock_results es ++ locks) ≡ lock_results (e ∷ es) ++ locks
lock_first (locking r) es locks = refl
lock_first (writes r) es locks = refl
lock_first loop_ends es locks = refl
lock_first unlocks es locks = refl

write_first :
    (e : Event) (es : List Event) (results : List WriteResult)
    → write_results (e ∷ []) ++ (write_results es ++ results) ≡ write_results (e ∷ es) ++ results
write_first (locking r) es results = refl
write_first (writes r) es results = refl
write_first loop_ends es results = refl
write_first unlocks es results = refl

run_lem :
    {i : ℕ} {s t : System} {es : List Event} (line : Bytes) (outcome : Bool)
    → Run i s es t
    → t.process i ≡ returned line outcome
    → (locks : List LockResult) (results : List WriteResult)
    → rest_of_call (s.process i) (lock_results es ++ locks) (write_results es ++ results) s.file
      ≡ some (outcome, t.file)
unfolding rest_of_call
run_lem {i} {s} line outcome stop at locks results =
    ap (λ p. rest_of_call p locks results s.file) at
run_lem {i} {s} {t} line outcome (step {u = u} {e = e} {es = es} x r) at locks results =
    let more_locks = lock_results es ++ locks in
    let more_results = write_results es ++ results in
    subst
      (λ ls.
        rest_of_call (s.process i) ls (write_results (e ∷ es) ++ results) s.file
        ≡ some (outcome, t.file))
      (lock_first e es locks)
      (subst
        (λ ws.
          rest_of_call (s.process i) (lock_results (e ∷ []) ++ more_locks) ws s.file
          ≡ some (outcome, t.file))
        (write_first e es results)
        (step_lem s u i more_locks more_results e x ∙ run_lem line outcome r at locks results))

module _ (i : ℕ) (line after : Bytes) (outcome : Bool) where
  after_step :
      {s u : System} (e : Event) (locks : List LockResult) (results : List WriteResult)
      → Step s u i e
      → Returns u i locks results line after outcome
      → Returns s i
          (lock_results (e ∷ []) ++ locks)
          (write_results (e ∷ []) ++ results)
          line
          after
          outcome
  after_step e locks results x v = record {
    last = v.last;
    events = e ∷ v.events;
    run = step x v.run;
    locks_left = v.locks_left;
    locks_used =
        ap (λ t. lock_results (e ∷ []) ++ t) v.locks_used ∙ lock_first e v.events v.locks_left;
    writes_left = v.writes_left;
    writes_used =
        ap (λ t. write_results (e ∷ []) ++ t) v.writes_used ∙ write_first e v.events v.writes_left;
    file = v.file;
    at_end = v.at_end;
  }

  -- A process that has returned.
  ended :
      (s : System) (locks : List LockResult) (results : List WriteResult)
      → s.process i ≡ returned line outcome
      → s.file ≡ after
      → Returns s i locks results line after outcome
  ended s locks results at file = record {
    last = s;
    events = [];
    run = stop;
    locks_left = locks;
    locks_used = refl;
    writes_left = results;
    writes_used = refl;
    file = file;
    at_end = at;
  }

  unlocking-Returns :
      (s : System) (locks : List LockResult) (results : List WriteResult) (rest : Bytes)
      → s.process i ≡ unlocking line rest outcome
      → s.file ≡ after
      → Returns s i locks results line after outcome
  unlocking-Returns s locks results rest at file =
      let q = returned line outcome in
      let u : System = record s { holder = none; process = update s.process i q } in
      after_step unlocks locks results (unlock line rest outcome at refl)
        (ended u locks results (update_same s.process i q) file)

  writing-Returns :
      (results : List WriteResult) (s : System) (locks : List LockResult) (rest : Bytes)
      → s.process i ≡ writing line rest
      → write_fully results s.file rest ≡ some (outcome, after)
      → Returns s i locks results line after outcome
  unfolding write_fully
  writing-Returns results s locks [] at e =
      let parts : (true ≡ outcome) × (s.file ≡ after) = ground arith in
      let q = unlocking line [] true in
      let u : System = record s { process = update s.process i q } in
      after_step loop_ends locks results (written line at refl) (
        unlocking-Returns u locks results []
          (update_same s.process i q ∙ ap (unlocking line []) parts.0) parts.1)
  writing-Returns [] s locks (c ∷ rest) at e = absurd (ground arith)
  writing-Returns (wrote n ∷ results) s locks (c ∷ rest) at e =
      let q = writing line (drop n (c ∷ rest)) in
      let u : System = record s {
        file = s.file ++ take n (c ∷ rest);
        process = update s.process i q;
      } in
      after_step (writes (wrote n)) locks results
        (write line (c ∷ rest) n at (λ h. ground arith) refl)
        (writing-Returns results u locks (drop n (c ∷ rest)) (update_same s.process i q) e)
  writing-Returns (interrupted ∷ results) s locks (c ∷ rest) at e =
      after_step (writes interrupted) locks results
        (write_signal line (c ∷ rest) at (λ h. ground arith) refl)
        (writing-Returns results s locks (c ∷ rest) at e)
  writing-Returns (failed ∷ results) s locks (c ∷ rest) at e =
      let parts : (false ≡ outcome) × (s.file ≡ after) = ground arith in
      let q = unlocking line (c ∷ rest) false in
      let u : System = record s { process = update s.process i q } in
      after_step (writes failed) locks results
        (write_fails line (c ∷ rest) at (λ h. ground arith) refl)
        (unlocking-Returns u locks results (c ∷ rest)
          (update_same s.process i q ∙ ap (unlocking line (c ∷ rest)) parts.0) parts.1)

  waiting-Returns :
      (locks : List LockResult) (results : List WriteResult) (s : System)
      → s.process i ≡ waiting line
      → s.holder ≡ none
      → rest_of_call (waiting line) locks results s.file ≡ some (outcome, after)
      → Returns s i locks results line after outcome
  unfolding rest_of_call lock_fully
  waiting-Returns [] results s at unheld e = absurd (ground arith)
  waiting-Returns (locked ∷ locks) results s at unheld e =
      let q = writing line line in
      let u : System = record s { holder = some i; process = update s.process i q } in
      after_step (locking locked) locks results (lock line at unheld refl)
        (writing-Returns results u locks line (update_same s.process i q) e)
  waiting-Returns (lock_interrupted ∷ locks) results s at unheld e =
      after_step (locking lock_interrupted) locks results (lock_signal line at refl)
        (waiting-Returns locks results s at unheld e)
  waiting-Returns (refused ∷ locks) results s at unheld e =
      let parts : (false ≡ outcome) × (s.file ≡ after) = ground arith in
      let q = returned line false in
      let u : System = record s { process = update s.process i q } in
      after_step (locking refused) locks results (lock_fails line at refl)
        (ended u locks results (update_same s.process i q ∙ ap (returned line) parts.0) parts.1)

-- Where nobody holds the lock, a call of `append_trace_line` that nobody interferes with and the steps
-- of its process are the same: with a path that is not empty and a file that could be opened, the call
-- returns an outcome and leaves a file exactly when the process can return that outcome and leave that
-- file by steps of its own in which ::flock and ::write give the same results in the same order, the
-- call's lists being used from the first on.
pub append_trace_line_iff :
    (path : Bytes) (locks : List LockResult) (results : List WriteResult) (s : System) (i : ℕ)
    (line after : Bytes) (outcome : Bool)
    → 1 ≤ length path
    → s.process i ≡ waiting line
    → s.holder ≡ none
    → (append_trace_line (some path) true locks results s.file line ≡ some (outcome, after))
      ↔ Returns s i locks results line after outcome
unfolding append_trace_line rest_of_call
append_trace_line_iff [] locks results s i line after outcome named at unheld = absurd (omega arith)
append_trace_line_iff (c ∷ path) locks results s i line after outcome named at unheld = (
  λ e. waiting-Returns i line after outcome locks results s at unheld e,
  λ v.
      ap (λ ls. rest_of_call (waiting line) ls results s.file) v.locks_used
      ∙ ap (λ ws. rest_of_call (waiting line) (lock_results v.events ++ v.locks_left) ws s.file)
          v.writes_used
      ∙ ap
          (λ p.
            rest_of_call p (lock_results v.events ++ v.locks_left)
              (write_results v.events ++ v.writes_left) s.file)
          (sym at)
      ∙ run_lem line outcome v.run v.at_end v.locks_left v.writes_left
      ∙ ap (λ f. some (outcome, f)) v.file,
)
