-- ===== src/Core/BuildVariables/Expand.antt =====
-- The loop of `expand_with_budget` in src/core/build_variables.cpp, a round at a time, and how much
-- longer than its text an expansion can be.
use bomwerk.Prelude.{
  ℕ, zero, suc, ◌+◌, ◌-◌, ◌≤◌, ◌≡◌, refl, true, false, not, ◌||◌, ◌⊎◌, none, some, [], ◌∷◌, ◌++◌,
  arith, inl, inr, Bytes, length, length-append, length-drop, take, drop, max, any_of, Bool-cases,
  Option-cases,
}
use bomwerk.Core.BuildVariables.{
  VariableDialect, VariableTable, ExpansionBudget, find_closing_bracket, starts_reference, find,
  table_key, resolved, within_size, append_resolved, expand_reference, expand_loop,
  expand_with_budget, if_within, expand_variables, no_entries, is_dollar,
}

module _ (table : VariableTable) (d : VariableDialect)
    (deeper : Bytes → ExpansionBudget → Bytes × ExpansionBudget) where
  abbrev pub rounds : ℕ → Bytes → Bytes → ExpansionBudget → Bytes × ExpansionBudget
  rounds = expand_loop table d deeper

  pub over :
      (fuel : ℕ) (c : ℕ) (text expanded : Bytes) (b : ExpansionBudget)
      → b.exceeded ≡ true
      → rounds (suc fuel) (c ∷ text) expanded b ≡ (expanded, b)
  unfolding expand_loop
  over fuel c text expanded b h = simp (h, expand_loop)

  pub copied :
      (fuel : ℕ) (c : ℕ) (text expanded : Bytes) (b : ExpansionBudget)
      → b.exceeded ≡ false
      → starts_reference d (c ∷ text) ≡ false
      → rounds (suc fuel) (c ∷ text) expanded b ≡ rounds fuel text (expanded ++ c ∷ []) b
  unfolding expand_loop
  copied fuel c text expanded b h e = simp (h, e, expand_loop)

  pub unclosed :
      (fuel : ℕ) (c : ℕ) (text expanded : Bytes) (b : ExpansionBudget)
      → b.exceeded ≡ false
      → starts_reference d (c ∷ text) ≡ true
      → find_closing_bracket d 0 text ≡ none
      → rounds (suc fuel) (c ∷ text) expanded b ≡ (expanded ++ c ∷ text, b)
  unfolding expand_loop
  unclosed fuel c text expanded b h e n = simp (h, e, n, expand_loop)

  abbrev pub referenced : ℕ → ℕ → Bytes → Bytes → ExpansionBudget → Bytes × ExpansionBudget
  referenced closing c text expanded b =
      expand_reference table d deeper (take (closing + 2) (c ∷ text))
        (take (closing - 1) (drop 1 text)) expanded b

  pub closed :
      (fuel : ℕ) (c : ℕ) (text expanded : Bytes) (b : ExpansionBudget) (closing : ℕ)
      → b.exceeded ≡ false
      → starts_reference d (c ∷ text) ≡ true
      → find_closing_bracket d 0 text ≡ some closing
      → rounds (suc fuel) (c ∷ text) expanded b
        ≡ rounds fuel
            (drop (closing + 1) text)
            (referenced closing c text expanded b).0
            (referenced closing c text expanded b).1
  unfolding expand_loop
  closed fuel c text expanded b closing h e n = simp (h, e, n, expand_loop)

  within_size_lem :
      (r : Bytes × ExpansionBudget)
      → (within_size r).1.exceeded ≡ false
      → length (within_size r).0 ≤ 8192
  unfolding within_size
  within_size_lem (expanded, b) h = ground arith

  reference_bound :
      (reference raw expanded : Bytes) (b : ExpansionBudget)
      → (expand_reference table d deeper reference raw expanded b).1.exceeded ≡ false
      → length (expand_reference table d deeper reference raw expanded b).0 ≤ 8192
  unfolding expand_reference append_resolved
  reference_bound reference raw expanded b h =
      let (name, named) = deeper raw b in
      let (piece, spent) = resolved deeper (find (table_key d name) table) reference named in
      within_size_lem (expanded ++ piece, spent) h

  pub no_rounds :
      (text expanded : Bytes) (b : ExpansionBudget) → rounds zero text expanded b ≡ (expanded, b)
  unfolding expand_loop
  no_rounds text expanded b = refl

  pub no_text :
      (fuel : ℕ) (expanded : Bytes) (b : ExpansionBudget)
      → rounds (suc fuel) [] expanded b ≡ (expanded, b)
  unfolding expand_loop
  no_text fuel expanded b = refl

  -- Once a limit is passed the loop leaves what there is.
  exceeded_stays :
      (fuel : ℕ) (text expanded : Bytes) (b : ExpansionBudget)
      → b.exceeded ≡ true
      → (rounds fuel text expanded b).1.exceeded ≡ true
  exceeded_stays zero text expanded b h = rw (no_rounds text expanded b) h
  exceeded_stays (suc fuel) [] expanded b h = rw (no_text fuel expanded b) h
  exceeded_stays (suc fuel) (c ∷ text) expanded b h = rw (over fuel c text expanded b h) h

  pub not_exceeded :
      (fuel : ℕ) (text expanded : Bytes) (b : ExpansionBudget)
      → (rounds fuel text expanded b).1.exceeded ≡ false
      → b.exceeded ≡ false
  not_exceeded fuel text expanded b h = elim (Bool-cases b.exceeded) [
    | inl e ↦ absurd (ground (arith, exceeded_stays fuel text expanded b e))
    | inr e ↦ e
  ]

  rounds_bound :
      (fuel : ℕ) (text expanded : Bytes) (b : ExpansionBudget)
      → (rounds fuel text expanded b).1.exceeded ≡ false
      → length (rounds fuel text expanded b).0 ≤ max 8192 (length expanded) + length text
  rounds_bound zero text expanded b h = rw (no_rounds text expanded b) (omega arith)
  rounds_bound (suc fuel) [] expanded b h = rw (no_text fuel expanded b) (omega arith)
  rounds_bound (suc fuel) (c ∷ text) expanded b h = elim (Bool-cases b.exceeded) [
    | inl e ↦ rw (over fuel c text expanded b e) (omega arith)
    | inr e ↦ elim (Bool-cases (starts_reference d (c ∷ text))) [
      | inr other ↦
          let step = copied fuel c text expanded b e other in
          let rest = rounds_bound fuel text (expanded ++ c ∷ []) b (rw step at h) in
          rw step (omega (arith, rest, length-append expanded (c ∷ [])))
      | inl starts ↦ elim (Option-cases (find_closing_bracket d 0 text)) [
        | inl open_end ↦
            rw (unclosed fuel c text expanded b e starts open_end)
              (omega (arith, length-append expanded (c ∷ text)))
        | inr (closing, at) ↦
            let step = closed fuel c text expanded b closing e starts at in
            let longer = (referenced closing c text expanded b).0 in
            let spent = (referenced closing c text expanded b).1 in
            let h' : (rounds fuel (drop (closing + 1) text) longer spent).1.exceeded ≡ false =
              rw step at h in
            let rest = rounds_bound fuel (drop (closing + 1) text) longer spent h' in
            let bound =
              reference_bound (take (closing + 2) (c ∷ text)) (take (closing - 1) (drop 1 text))
                expanded b (not_exceeded fuel (drop (closing + 1) text) longer spent h') in
            rw step (omega (arith, rest, bound, length-drop (closing + 1) text))
      ]
    ]
  ]

expanded_bound :
    (table : VariableTable) (d : VariableDialect) (levels : ℕ) (text : Bytes) (b : ExpansionBudget)
    → (expand_with_budget table d levels text b).1.exceeded ≡ false
    → length (expand_with_budget table d levels text b).0 ≤ 8192 + length text
unfolding expand_with_budget
expanded_bound table d zero text b h = absurd (ground arith)
expanded_bound table d (suc levels) text b h =
    rounds_bound table d (expand_with_budget table d levels) (length text) text [] b h

if_within_cases :
    (text : Bytes) (r : Bytes × ExpansionBudget)
    → (if_within text r ≡ text) ⊎ ((r.1.exceeded ≡ false) × (if_within text r ≡ r.0))
unfolding if_within
if_within_cases text (expanded, b) = elim (Bool-cases b.exceeded) [
  | inl e ↦ inl (rw e)
  | inr e ↦ inr (e, rw e)
]

pub expand_variables_cases :
    (text : Bytes) (table : VariableTable) (d : VariableDialect)
    → (expand_variables text table d ≡ text)
      ⊎ ((b : ExpansionBudget) × ((expand_with_budget table d 9 text b).1.exceeded ≡ false)
          × (expand_variables text table d ≡ (expand_with_budget table d 9 text b).0))
unfolding expand_variables
expand_variables_cases text table d =
    let full : ExpansionBudget = record { substitutions_left = 256; exceeded = false } in
    let known = no_entries table || not (any_of is_dollar text) in
    elim (Bool-cases known) [
      | inl plain ↦ inl (rw plain)
      | inr other ↦ elim (if_within_cases text (expand_with_budget table d 9 text full)) [
        | inl same ↦ inl (rw other same)
        | inr (within, value) ↦ inr (full, within, rw other value)
      ]
    ]

-- An expansion has at most 8192 bytes more than its text, whatever the table holds: cycles, and
-- values that double at every step, included.
pub expand_variables_bound :
    (text : Bytes) (table : VariableTable) (d : VariableDialect)
    → length (expand_variables text table d) ≤ 8192 + length text
expand_variables_bound text table d = elim (expand_variables_cases text table d) [
  | inl same ↦ rw same (omega arith)
  | inr (b, within, value) ↦ rw value (expanded_bound table d 9 text b within)
]
