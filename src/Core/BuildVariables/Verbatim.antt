-- ===== src/Core/BuildVariables/Verbatim.antt =====
-- `expand_variables` of src/core/build_variables.cpp where no variable of the table has a value.
use bomwerk.Prelude.{
  ℕ, zero, suc, ◌+◌, ◌-◌, ◌≤◌, ◌≡◌, ◌≢◌, refl, sym, ap, ◌∙◌, false, Option, none, some, [], ◌∷◌,
  ◌++◌, append-nil, append_assoc, arith, inl, inr, Bytes, length, length-drop, take, drop,
  take-append-drop, ltb, Bool-cases, Option-cases,
}
use bomwerk.Core.BuildVariables.{
  VariableDialect, VariableTable, ExpansionBudget, find, table_key, find_closing_bracket,
  starts_reference, resolved, within_size, append_resolved, expand_reference, expand_with_budget,
  expand_variables,
}
use bomwerk.Core.BuildVariables.Expand.{
  rounds, copied, unclosed, closed, no_rounds, no_text, not_exceeded, expand_variables_cases,
}

-- Every variable that the table knows is ambiguous.
abbrev pub IsAmbiguous : VariableTable → Type 0
IsAmbiguous table = (k v : Bytes) → find k table ≢ some (some v)

within_size-text : (r : Bytes × ExpansionBudget) → (within_size r).0 ≡ r.0
unfolding within_size
within_size-text (expanded, b) = elim (Bool-cases (ltb 8192 (length expanded))) [
  | inl long ↦ rw long
  | inr short ↦ rw short
]

module _ (table : VariableTable) (d : VariableDialect) (nothing : IsAmbiguous table)
    (deeper : Bytes → ExpansionBudget → Bytes × ExpansionBudget) where
  resolved-text :
      (known : Option (Option Bytes)) (reference : Bytes) (b : ExpansionBudget)
      → ((v : Bytes) → known ≢ some (some v))
      → (resolved deeper known reference b).0 ≡ reference
  unfolding resolved
  resolved-text none reference b h = refl
  resolved-text (some none) reference b h = refl
  resolved-text (some (some v)) reference b h = absurd (h v refl)

  reference_kept :
      (reference raw expanded : Bytes) (b : ExpansionBudget)
      → (expand_reference table d deeper reference raw expanded b).0 ≡ expanded ++ reference
  unfolding expand_reference append_resolved
  reference_kept reference raw expanded b =
      let (name, named) = deeper raw b in
      let key = table_key d name in
      let (piece, spent) = resolved deeper (find key table) reference named in
      within_size-text (expanded ++ piece, spent)
      ∙ ap (λ t. expanded ++ t) (resolved-text (find key table) reference named (nothing key))

  pieces :
      (k : ℕ) (c : ℕ) (text expanded : Bytes)
      → (expanded ++ take (k + 2) (c ∷ text)) ++ drop (k + 1) text ≡ expanded ++ c ∷ text
  pieces k c text expanded =
      let next : k + 2 ≡ suc (k + 1) = omega arith in
      append_assoc expanded (take (k + 2) (c ∷ text)) (drop (k + 1) text)
      ∙ ap (λ (n : ℕ). expanded ++ (take n (c ∷ text) ++ drop (k + 1) text)) next
      ∙ ap (λ t. expanded ++ c ∷ t) (take-append-drop (k + 1) text)

  rounds_kept :
      (fuel : ℕ) (text expanded : Bytes) (b : ExpansionBudget)
      → length text ≤ fuel
      → (rounds table d deeper fuel text expanded b).1.exceeded ≡ false
      → (rounds table d deeper fuel text expanded b).0 ≡ expanded ++ text
  rounds_kept zero [] expanded b le h =
      rw (no_rounds table d deeper [] expanded b) (sym (append-nil expanded))
  rounds_kept zero (c ∷ text) expanded b le h = absurd (omega arith)
  rounds_kept (suc fuel) [] expanded b le h =
      rw (no_text table d deeper fuel expanded b) (sym (append-nil expanded))
  rounds_kept (suc fuel) (c ∷ text) expanded b le h =
      let e = not_exceeded table d deeper (suc fuel) (c ∷ text) expanded b h in
      elim (Bool-cases (starts_reference d (c ∷ text))) [
        | inr other ↦
            let step = copied table d deeper fuel c text expanded b e other in
            rw step (
              rounds_kept fuel text (expanded ++ c ∷ []) b (omega arith) (rw step at h)
              ∙ append_assoc expanded (c ∷ []) text)
        | inl starts ↦ elim (Option-cases (find_closing_bracket d 0 text)) [
          | inl open_end ↦ rw (unclosed table d deeper fuel c text expanded b e starts open_end)
          | inr (k, at) ↦
              let step = closed table d deeper fuel c text expanded b k e starts at in
              let reference = take (k + 2) (c ∷ text) in
              let raw = take (k - 1) (drop 1 text) in
              let longer = expand_reference table d deeper reference raw expanded b in
              rw step (
                rounds_kept fuel (drop (k + 1) text) longer.0 longer.1
                  (omega (arith, length-drop (k + 1) text)) (rw step at h)
                ∙ ap (λ t. t ++ drop (k + 1) text) (reference_kept reference raw expanded b)
                ∙ pieces k c text expanded)
        ]
      ]

kept :
    (table : VariableTable) (d : VariableDialect) (levels : ℕ) (text : Bytes) (b : ExpansionBudget)
    → IsAmbiguous table
    → (expand_with_budget table d levels text b).1.exceeded ≡ false
    → (expand_with_budget table d levels text b).0 ≡ text
unfolding expand_with_budget
kept table d zero text b nothing h = refl
kept table d (suc levels) text b nothing h =
    rounds_kept table d nothing (expand_with_budget table d levels) (length text) text [] b
      (omega arith) h

-- Where every variable that is known is ambiguous, a text comes back as it is, whatever brackets
-- and references stand in it.
pub expand_variables-ambiguous :
    (text : Bytes) (table : VariableTable) (d : VariableDialect)
    → IsAmbiguous table
    → expand_variables text table d ≡ text
expand_variables-ambiguous text table d nothing = elim (expand_variables_cases text table d) [
  | inl same ↦ same
  | inr (b, within, value) ↦ value ∙ kept table d 9 text b nothing within
]
