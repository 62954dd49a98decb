-- ===== src/Observe/TraceWriter/Interleaved.antt =====
-- Every reachable state of the processes of src/observe/trace_writer.cpp.
use bomwerk.Prelude.{
  ℕ, ◌≡◌, ◌≢◌, refl, sym, ap, ◌∙◌, subst, Bool, true, false, none, some, List, [], ◌∷◌, ◌++◌,
  append-nil, append_assoc, arith, inl, inr, Bytes, All, All-append, Any, take, drop,
  take-append-drop,
}
use bomwerk.Observe.TraceWriter.{
  Process, waiting, writing, unlocking, returned, System, update, Event, Step, lock, lock_signal,
  lock_fails, write, write_signal, write_fails, written, unlock, Reach, here, next,
}
use bomwerk.Observe.TraceWriter.Whole.{
  line_in, is_inside, has_returned, updated, update_same, writing_inside, unlocking_inside, Piece,
  fronts, IsWhole, AllDistinct, distinct_append, Any-append_left, Any-append_last, fronts-append,
  Inv, own_kept, owners_other, past_kept, only, lock-Inv, lock_fails-Inv, inside-Inv,
}

module _ {line_of : ℕ → Bytes} {start : Bytes} {s : System} (v : Inv line_of start s) where
  write-Inv :
      (i : ℕ) (line rest : Bytes) (n : ℕ)
      → s.process i ≡ writing line rest
      → Inv line_of start (record s {
        file = s.file ++ take n rest;
        process = update s.process i (writing line (drop n rest));
      })
  unfolding is_inside has_returned
  write-Inv i line rest n at =
      inside-Inv v i (writing line (drop n rest)) (take n rest)
        (writing_inside (s.process i) line rest at)
        (λ l r e.
          let pair : (line ≡ l) × (drop n rest ≡ r) = ground arith in
          sym pair.0
          ∙ v.writer i line rest at
          ∙ ap (λ t. v.current ++ t) (sym (take-append-drop n rest))
          ∙ sym (append_assoc v.current (take n rest) (drop n rest))
          ∙ ap (λ t. (v.current ++ take n rest) ++ t) pair.1)
        (λ l r b e. absurd (ground arith)) refl (sym (ap line_in at))

  end-Inv :
      (i : ℕ) (line rest : Bytes) (outcome : Bool)
      → s.process i ≡ writing line rest
      → (outcome ≡ true → rest ≡ [])
      → Inv line_of start (record s { process = update s.process i (unlocking line rest outcome) })
  unfolding is_inside has_returned
  end-Inv i line rest outcome at all =
      let p = unlocking line rest outcome in
      subst (λ f. Inv line_of start (record s { file = f; process = update s.process i p }))
        (append-nil s.file)
        (inside-Inv v i p [] (writing_inside (s.process i) line rest at)
          (λ l r e. absurd (ground arith))
          (λ l r b e.
            let parts : (line ≡ l) × (rest ≡ r) × (outcome ≡ b) = ground arith in
            (
              sym parts.0
                  ∙ v.writer i line rest at
                  ∙ ap (λ t. t ++ rest) (sym (append-nil v.current))
                  ∙ ap (λ t. (v.current ++ []) ++ t) parts.1,
              λ h. sym parts.1 ∙ all (parts.2 ∙ h),
            ))
          refl (sym (ap line_in at)))

  unlock-Inv :
      (i : ℕ) (line rest : Bytes) (outcome : Bool)
      → s.process i ≡ unlocking line rest outcome
      → Inv line_of start
          (record s { holder = none; process = update s.process i (returned line outcome) })
  unfolding is_inside has_returned
  unlock-Inv i line rest outcome at =
      let new = returned line outcome in
      let (whole, all) = v.leaver i line rest outcome at in
      let inside = unlocking_inside (s.process i) line rest outcome at in
      let own : line ≡ line_of i = sym (ap line_in at) ∙ v.own_line i in
      let piece : Piece line_of = record {
        owner = i;
        front = v.current;
        back = rest;
        whole = sym own ∙ whole;
      } in
      let here : has_returned (s.process i) ≡ false = ap has_returned at in
      let apart : (j : ℕ) → i ≢ j → is_inside (s.process j) ≡ true → ⊥ =
        λ j other h. other (only v i j inside h) in
      record {
        pieces = v.pieces ++ piece ∷ [];
        current = [];
        content =
            v.content
            ∙ ap (λ t. start ++ t)
                (sym (fronts-append line_of v.pieces piece)
                  ∙ sym (append-nil (fronts line_of (v.pieces ++ piece ∷ []))));
        alone = λ j h. elim (updated s.process i new j) [
          | inl (same, e) ↦ absurd (ground (arith, ap is_inside (sym e) ∙ h))
          | inr (other, e) ↦ absurd (apart j other (ap is_inside (sym e) ∙ h))
        ];
        writer = λ j l r h. elim (updated s.process i new j) [
          | inl (same, e) ↦
              let values : returned line outcome ≡ writing l r = sym e ∙ h in absurd (ground arith)
          | inr (other, e) ↦ absurd (apart j other (writing_inside (s.process j) l r (sym e ∙ h)))
        ];
        leaver = λ j l r b h. elim (updated s.process i new j) [
          | inl (same, e) ↦
              let values : returned line outcome ≡ unlocking l r b = sym e ∙ h in
              absurd (ground arith)
          | inr (other, e) ↦
              absurd (apart j other (unlocking_inside (s.process j) l r b (sym e ∙ h)))
        ];
        own_line = own_kept line_of s.process i new v.own_line (sym (ap line_in at));
        held = λ j h. absurd (ground arith);
        past =
            All-append (λ q. has_returned (update s.process i new q.owner) ≡ true) v.pieces
              (piece ∷ []) (past_kept line_of s.process i new v.pieces v.past here)
              (ap has_returned (update_same s.process i new), tt);
        once =
            distinct_append line_of v.pieces piece v.once
              (owners_other line_of s.process i v.pieces v.past here);
        free = λ h. refl;
        kept = λ j l h. elim (updated s.process i new j) [
          | inl (same, e) ↦
              let values : returned line outcome ≡ returned l true = sym e ∙ h in
              let pair : (line ≡ l) × (outcome ≡ true) = ground arith in
              Any-append_last line_of (IsWhole line_of j) v.pieces piece (
                same,
                sym (append-nil v.current)
                    ∙ ap (λ t. v.current ++ t) (sym (all pair.1))
                    ∙ sym whole
                    ∙ own
                    ∙ ap line_of same,
              )
          | inr (other, e) ↦
              Any-append_left line_of (IsWhole line_of j) v.pieces (piece ∷ [])
                (v.kept j l (sym e ∙ h))
        ];
      }

  step-Inv : {t : System} (i : ℕ) (e : Event) → Step s t i e → Inv line_of start t
  step-Inv i e (lock line at unheld new) =
      subst (Inv line_of start) (sym new) (lock-Inv v i line at unheld)
  step-Inv i e (lock_signal line at new) = subst (Inv line_of start) (sym new) v
  step-Inv i e (lock_fails line at new) =
      subst (Inv line_of start) (sym new) (lock_fails-Inv v i line at)
  step-Inv i e (write line rest n at more new) =
      subst (Inv line_of start) (sym new) (write-Inv i line rest n at)
  step-Inv i e (write_signal line rest at more new) = subst (Inv line_of start) (sym new) v
  step-Inv i e (write_fails line rest at more new) =
      subst (Inv line_of start) (sym new)
        (end-Inv i line rest false at (λ h. absurd (ground arith)))
  step-Inv i e (written line at new) =
      subst (Inv line_of start) (sym new) (end-Inv i line [] true at (λ h. refl))
  step-Inv i e (unlock line rest outcome at new) =
      subst (Inv line_of start) (sym new) (unlock-Inv i line rest outcome at)

-- Before a build: nobody holds the lock, and every process waits with its line.
pub record IsStart (line_of : ℕ → Bytes) (s : System) : Type 0 where
  pub unheld : s.holder ≡ none
  pub all_wait : (j : ℕ) → s.process j ≡ waiting (line_of j)

module _ (line_of : ℕ → Bytes) where
  start-Inv : {s : System} → IsStart line_of s → Inv line_of s.file s
  unfolding is_inside
  start-Inv {s} h = record {
    pieces = [];
    current = [];
    content = sym (append-nil s.file);
    own_line = λ j. ap line_in (h.all_wait j);
    alone = λ j e. absurd (ground (arith, h.all_wait j, ap is_inside (h.all_wait j)));
    held = λ j e. absurd (ground (arith, h.unheld));
    writer = λ j l r e. absurd (ground (arith, h.all_wait j));
    leaver = λ j l r b e. absurd (ground (arith, h.all_wait j));
    free = λ e. refl;
    kept = λ j l e. absurd (ground (arith, h.all_wait j));
    past = tt;
    once = tt;
  }

  reach-Inv : {start : Bytes} {s t : System} → Inv line_of start s → Reach s t → Inv line_of start t
  reach-Inv v here = v
  reach-Inv v (next i e r step) = step-Inv (reach-Inv v r) i e step

  holder_line :
      (p : Process) (current : Bytes)
      → is_inside p ≡ true
      → ((line rest : Bytes) → p ≡ writing line rest → line ≡ current ++ rest)
      → ((line rest : Bytes) (outcome : Bool)
          → p ≡ unlocking line rest outcome
          → (line ≡ current ++ rest) × (outcome ≡ true → rest ≡ []))
      → (rest : Bytes) × (line_in p ≡ current ++ rest)
  unfolding is_inside
  holder_line (waiting line) current h writer leaver = absurd (ground arith)
  holder_line (writing line rest) current h writer leaver = (rest, writer line rest refl)
  holder_line (unlocking line rest outcome) current h writer leaver =
      (rest, (leaver line rest outcome refl).0)
  holder_line (returned line outcome) current h writer leaver = absurd (ground arith)

  -- The trace, behind what was there before, in terms of the processes and their lines.
  pub record IsTrace (before : Bytes) (t : System) : Type 0 where
    pub pieces : List (Piece line_of)
    pub current : Bytes
    pub content : t.file ≡ before ++ (fronts line_of pieces ++ current)
    pub once : AllDistinct line_of pieces
    pub past : All (λ p. has_returned (t.process p.owner) ≡ true) pieces
    pub kept :
        (j : ℕ) (line : Bytes) → t.process j ≡ returned line true → Any (IsWhole line_of j) pieces
    pub in_progress : (j : ℕ) → t.holder ≡ some j → (rest : Bytes) × (line_of j ≡ current ++ rest)
    pub nothing_open : t.holder ≡ none → current ≡ []

  -- However the processes of a build take turns, get signals, write a part only or fail: behind what
  -- was there before, the file is a sequence of pieces and what is in progress. Each piece is a front
  -- of the line of one process, which has returned, and no process has two. A process that returned
  -- `true` has its whole line as its piece. What is in progress is a front of the line of the process
  -- that holds the lock, and empty if none does. So no line stands inside another.
  pub reach-IsTrace : {s t : System} → IsStart line_of s → Reach s t → IsTrace s.file t
  reach-IsTrace {s} {t} h r =
      let v = reach-Inv (start-Inv h) r in
      record {
        pieces = v.pieces;
        current = v.current;
        content = v.content;
        once = v.once;
        past = v.past;
        kept = v.kept;
        in_progress = λ j held.
            let (rest, e) =
              holder_line (t.process j) v.current (v.held j held) (v.writer j) (v.leaver j) in
            (rest, sym (v.own_line j) ∙ e);
        nothing_open = v.free;
      }
