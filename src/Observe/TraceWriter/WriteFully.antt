-- ===== src/Observe/TraceWriter/WriteFully.antt =====
-- `write_fully` of src/observe/trace_writer.cpp.
use bomwerk.Prelude.{
  ℕ, suc, ◌≤◌, ◌≡◌, refl, sym, ap, ◌∙◌, Bool, true, false, Option, none, some, List, [], ◌∷◌, ◌++◌,
  append-nil, append_assoc, arith, Bytes, All, length, length-drop, take, drop, take-append-drop,
}
use bomwerk.Observe.TraceWriter.{WriteResult, wrote, interrupted, failed, write_fully}

-- A result that is no error; a write of nothing is none of ::write on a file.
abbrev pub IsGood : WriteResult → Type 0
IsGood (wrote n) = 1 ≤ n
IsGood interrupted = Unit
IsGood failed = ⊥

abbrev pub write_count : List WriteResult → ℕ
write_count [] = 0
write_count (wrote n ∷ results) = suc (write_count results)
write_count (r ∷ results) = write_count results

-- Where no call fails, the loop returns: signals and short writes only make it longer, and as many
-- writes as there are bytes are enough. The file then has the whole text behind what it had.
pub write_fully_lem :
    (results : List WriteResult) (file text : Bytes)
    → All IsGood results
    → length text ≤ write_count results
    → write_fully results file text ≡ some (true, file ++ text)
unfolding write_fully
write_fully_lem results file [] good enough = ap (λ f. some (true, f)) (sym (append-nil file))
write_fully_lem [] file (c ∷ rest) good enough = absurd (omega arith)
write_fully_lem (wrote n ∷ results) file (c ∷ rest) (some_written, good) enough =
    write_fully_lem results (file ++ take n (c ∷ rest)) (drop n (c ∷ rest)) good
      (omega (arith, length-drop n (c ∷ rest)))
    ∙ ap (λ f. some (true, f))
        (append_assoc file (take n (c ∷ rest)) (drop n (c ∷ rest))
          ∙ ap (λ t. file ++ t) (take-append-drop n (c ∷ rest)))
write_fully_lem (interrupted ∷ results) file (c ∷ rest) (_, good) enough =
    write_fully_lem results file (c ∷ rest) good enough
write_fully_lem (failed ∷ results) file (c ∷ rest) (bad, good) enough = absurd bad

-- What the loop leaves behind in the file.
abbrev pub Leaves : Bytes → Bytes → Option (Bool × Bytes) → Type 0
Leaves file text none = Unit
Leaves file text (some (true, after)) = after ≡ file ++ text
Leaves file text (some (false, after)) =
    (front : Bytes) × (back : Bytes) × (text ≡ front ++ back) × (after ≡ file ++ front)

moved :
    (file : Bytes) (n : ℕ) (text : Bytes) (r : Option (Bool × Bytes))
    → Leaves (file ++ take n text) (drop n text) r
    → Leaves file text r
moved file n text none h = tt
moved file n text (some (true, after)) h =
    h
    ∙ append_assoc file (take n text) (drop n text)
    ∙ ap (λ t. file ++ t) (take-append-drop n text)
moved file n text (some (false, after)) (front, back, whole, e) = (
  take n text ++ front,
  back,
  sym (take-append-drop n text)
      ∙ ap (λ t. take n text ++ t) whole
      ∙ sym (append_assoc (take n text) front back),
  e ∙ append_assoc file (take n text) front,
)

-- Whatever the calls return: `true` means that the whole text was appended, and `false` that a front
-- of it was.
pub write_fully-Leaves :
    (results : List WriteResult) (file text : Bytes)
    → Leaves file text (write_fully results file text)
unfolding write_fully
write_fully-Leaves results file [] = sym (append-nil file)
write_fully-Leaves [] file (c ∷ rest) = tt
write_fully-Leaves (wrote n ∷ results) file (c ∷ rest) =
    moved file n (c ∷ rest) (write_fully results (file ++ take n (c ∷ rest)) (drop n (c ∷ rest)))
      (write_fully-Leaves results (file ++ take n (c ∷ rest)) (drop n (c ∷ rest)))
write_fully-Leaves (interrupted ∷ results) file (c ∷ rest) =
    write_fully-Leaves results file (c ∷ rest)
write_fully-Leaves (failed ∷ results) file (c ∷ rest) = ([], c ∷ rest, refl, sym (append-nil file))
