-- ===== src/Observe/TraceCheck/Order.antt =====
-- Two traces of one build, with the lines in another order: src/observe/trace_check.cpp.
use mathlib.Core.List.{Permᴰ}
use mathlib.Core.List.Permᴰ
use bomwerk.Prelude.{
  less, sort_by, ◌≤◌, ◌≡◌, refl, sym, ap, ap₂, ◌∙◌, subst, Option, none, some, List, [], ◌∷◌, arith,
  Bytes, less-IsOrder, length, sort_by-perm,
}
use bomwerk.Core.Warnings.{Result, result}
use bomwerk.Observe.TraceRead.{JsonLibrary, max_trace_lines, trace_lines}
use bomwerk.Observe.TraceCheck.{
  TraceStats, Checking, nothing_checked, check_lines, sorted_stats, warn_malformed, written_text,
  validate_and_sort_trace,
}
use bomwerk.Observe.TraceCheck.Tools.{count_tools-permuted}
use bomwerk.Observe.TraceCheck.Loop.{
  values_of, content_of, record_line, tool_of, contents, record_lines, Checked, check_lines-Checked,
}
use bomwerk.Observe.TraceCheck.Outcome.{
  length-permuted, length-record_lines, replaced, finish_check_lem,
}

cons_value :
    {A B : Type 0} (f : A → Option B) (x : A) (ys zs : List A)
    → Permᴰ (values_of f ys) (values_of f zs)
    → Permᴰ (values_of f (x ∷ ys)) (values_of f (x ∷ zs))
unfolding values_of
cons_value f x ys zs h =
    elim (f x)
      as (λ v.
        Permᴰ (elim v [ none ↦ values_of f ys | some y ↦ y ∷ values_of f ys ])
          (elim v [ none ↦ values_of f zs | some y ↦ y ∷ values_of f zs ])) [
            | none ↦ h
            | some y ↦ Permᴰ.cons refl h
          ]

swap_values :
    {A B : Type 0} (f : A → Option B) (x y : A) (zs : List A)
    → Permᴰ (values_of f (x ∷ y ∷ zs)) (values_of f (y ∷ x ∷ zs))
unfolding values_of
swap_values f x y zs =
    elim (f x)
      as (λ v.
        Permᴰ
          (elim v [
            | none ↦ elim (f y) [ none ↦ values_of f zs | some b ↦ b ∷ values_of f zs ]
            | some a ↦ a ∷ elim (f y) [ none ↦ values_of f zs | some b ↦ b ∷ values_of f zs ]
          ])
          (elim (f y) [
            | none ↦ elim v [ none ↦ values_of f zs | some a ↦ a ∷ values_of f zs ]
            | some b ↦ b ∷ elim v [ none ↦ values_of f zs | some a ↦ a ∷ values_of f zs ]
          ])) [
            | none ↦ Permᴰ.refl (elim (f y) [ none ↦ values_of f zs | some b ↦ b ∷ values_of f zs ])
            | some a ↦
                elim (f y)
                  as (λ w.
                    Permᴰ (a ∷ elim w [ none ↦ values_of f zs | some b ↦ b ∷ values_of f zs ])
                      (elim w [ none ↦ a ∷ values_of f zs | some b ↦ b ∷ a ∷ values_of f zs ])) [
                        | none ↦ Permᴰ.refl (a ∷ values_of f zs)
                        | some b ↦ Permᴰ.swap refl refl
                      ]
          ]

values_of-permuted :
    {A B : Type 0} (f : A → Option B) {xs ys : List A}
    → Permᴰ xs ys
    → Permᴰ (values_of f xs) (values_of f ys)
values_of-permuted f Permᴰ.nil = Permᴰ.refl (values_of f [])
values_of-permuted f (Permᴰ.cons {a = a} {l₁ = l₁} {l₂ = l₂} e d) =
    subst (λ b. Permᴰ (values_of f (a ∷ l₁)) (values_of f (b ∷ l₂))) e
      (cons_value f a l₁ l₂ (values_of-permuted f d))
values_of-permuted f (Permᴰ.swap {a = a} {b = b} {b' = d} {l = l} e h) =
    subst (λ c. Permᴰ (values_of f (a ∷ b ∷ l)) (values_of f (c ∷ d ∷ l))) h
      (subst (λ c. Permᴰ (values_of f (a ∷ b ∷ l)) (values_of f (b ∷ c ∷ l))) e
        (swap_values f a b l))
values_of-permuted f (Permᴰ.trans d e) =
    Permᴰ.trans (values_of-permuted f d) (values_of-permuted f e)

stats_equal :
    (x y : TraceStats)
    → x.total_lines ≡ y.total_lines
    → x.malformed_lines ≡ y.malformed_lines
    → x.sorted_lines ≡ y.sorted_lines
    → x.invocations_by_tool ≡ y.invocations_by_tool
    → x ≡ y
stats_equal x y total malformed sorted tools =
    ap (λ n. record x { total_lines = n }) total
    ∙ ap (λ n. record x { total_lines = y.total_lines; malformed_lines = n }) malformed
    ∙ ap
        (λ n. record x {
          total_lines = y.total_lines;
          malformed_lines = y.malformed_lines;
          sorted_lines = n;
        })
        sorted
    ∙ ap (λ ts. record y { invocations_by_tool = ts }) tools

-- What follows the loop, as it depends on the counts and the lines alone.
abbrev finished : TraceStats → List Bytes → Result TraceStats × Option Bytes
finished stats lines =
    (sorted_stats lines (warn_malformed stats (result stats)), some (written_text lines))

abbrev after : JsonLibrary → Bytes → Checking
after json bytes = check_lines json (trace_lines bytes) nothing_checked

module _ (json : JsonLibrary) (bytes : Bytes)
    (room : length (trace_lines bytes) ≤ max_trace_lines) where
  after-Checked :
      Checked json nothing_checked
        (contents (trace_lines bytes))
        (record_lines json (trace_lines bytes))
        (after json bytes)
  after-Checked =
      check_lines-Checked json (trace_lines bytes) nothing_checked
        (omega (arith, room, length-record_lines json (trace_lines bytes)))

  validate_finished :
      (trace_path : Bytes)
      → validate_and_sort_trace json trace_path replaced (some bytes)
        ≡ finished (after json bytes).stats (sort_by less (record_lines json (trace_lines bytes)))
  unfolding validate_and_sort_trace
  validate_finished trace_path =
      ap (λ out. (out.0, some out.1))
        (finish_check_lem trace_path bytes (after json bytes) after-Checked.within)
      ∙ ap (λ ls. finished (after json bytes).stats (sort_by less ls)) after-Checked.kept

-- Two traces that have the same lines, in whatever order the processes of the builds wrote them, become
-- the same file, byte for byte, with the same warnings and the same counts, those of each tool
-- included: for up to a million lines, where the rewritten copy takes the place of the trace.
pub validate_and_sort_trace-permuted :
    (json : JsonLibrary) (trace_path a b : Bytes)
    → Permᴰ (trace_lines a) (trace_lines b)
    → length (trace_lines a) ≤ max_trace_lines
    → validate_and_sort_trace json trace_path replaced (some a)
      ≡ validate_and_sort_trace json trace_path replaced (some b)
validate_and_sort_trace-permuted json trace_path a b same room =
    let room_b : length (trace_lines b) ≤ max_trace_lines =
      omega (arith, length-permuted same, room) in
    let va = after-Checked json a room in
    let vb = after-Checked json b room_b in
    let cs = values_of-permuted content_of same in
    let rs = values_of-permuted (record_line json) cs in
    let tools = values_of-permuted (tool_of json) rs in
    let stats : (after json a).stats ≡ (after json b).stats =
      stats_equal (after json a).stats (after json b).stats
        (omega (arith, va.total, vb.total, length-permuted cs))
        (omega (arith, va.balance, vb.balance, length-permuted cs, length-permuted rs))
        (va.unsorted ∙ sym vb.unsorted)
        (va.by_tool ∙ count_tools-permuted tools [] ∙ sym vb.by_tool) in
    validate_finished json a room trace_path
    ∙ ap₂ finished stats (sort_by-perm less-IsOrder rs)
    ∙ sym (validate_finished json b room_b trace_path)
