-- ===== src/Core/BuildVariables/Merge.antt =====
-- `merge_variable_tables` of src/core/build_variables.cpp: what a merged table says of a variable.
use bomwerk.Prelude.{
  ◌≡◌, ◌≢◌, refl, sym, ap, ◌∙◌, false, Option, none, some, [], ◌∷◌, arith, inl, inr, Bytes, equal,
  equal_iff, Bool-cases, if◌then◌else◌,
}
use bomwerk.Core.BuildVariables.{
  VariableDialect, VariableTable, table_key, find, assign, mark_variable_ambiguous, merge_entry,
  merge_variable_tables,
}
use bomwerk.Core.BuildVariables.Table.{joined, find-record, find-assign}

-- A table as the program builds them: keys in the form that the dialect compares, none of them
-- twice, and no empty value.
abbrev pub IsTable : VariableDialect → VariableTable → Type 0
IsTable d [] = Unit
IsTable d ((name, value) ∷ t) =
    (table_key d name ≡ name) × (value ≢ some []) × (find name t ≡ none) × IsTable d t

-- What two sources say of a variable together.
abbrev pub agreed : Option (Option Bytes) → Option (Option Bytes) → Option (Option Bytes)
agreed known none = known
agreed none (some value) = some value
agreed (some old) (some none) = some none
agreed (some none) (some (some value)) = some none
agreed (some (some old)) (some (some value)) =
    if equal old value then some (some old) else some none

joined-agreed :
    (known : Option (Option Bytes)) (value : Bytes)
    → value ≢ []
    → joined known value ≡ agreed known (some (some value))
joined-agreed none [] h = absurd (h refl)
joined-agreed none (x ∷ value) h = refl
joined-agreed (some none) value h = refl
joined-agreed (some (some old)) [] h = absurd (h refl)
joined-agreed (some (some old)) (x ∷ value) h = refl

agreed_ambiguous : (known : Option (Option Bytes)) → agreed known (some none) ≡ some none
agreed_ambiguous none = refl
agreed_ambiguous (some old) = refl

find-merge_entry :
    (k : Bytes) (d : VariableDialect) (t : VariableTable) (name : Bytes) (value : Option Bytes)
    → table_key d name ≡ name
    → value ≢ some []
    → find k (merge_entry d t (name, value))
      ≡ (if equal name k then agreed (find k t) (some value) else find k t)
unfolding merge_entry mark_variable_ambiguous
find-merge_entry k d t name none key filled = elim (Bool-cases (equal name k)) [
  | inl same ↦ rw (key, same) (find-assign k name none t ∙ rw (same, agreed_ambiguous (find k t)))
  | inr other ↦ rw (key, other) (find-assign k name none t ∙ rw other)
]
find-merge_entry k d t name (some value) key filled =
    let step = find-record k t d name value in
    elim (Bool-cases (equal name k)) [
      | inl same ↦
          let at : name ≡ k = (equal_iff name k).0 same in
          step
          ∙ rw (key, same)
              (ap (λ x. joined (find x t) value) at
                ∙ joined-agreed (find k t) value (λ e. filled (ap some e)))
      | inr other ↦ step ∙ rw (key, other)
    ]

-- What a merged table says of a variable is what the two tables say together: the value that one of
-- them gives it when the other knows nothing of it or agrees, and ambiguous in any other case.
pub find-merge_variable_tables :
    (k : Bytes) (d : VariableDialect) (destination source : VariableTable)
    → IsTable d source
    → find k (merge_variable_tables destination d source)
      ≡ agreed (find k destination) (find k source)
unfolding merge_variable_tables find
find-merge_variable_tables k d destination [] h = refl
find-merge_variable_tables k d destination ((name, value) ∷ source) (key, filled, new, h) =
    let entry = find-merge_entry k d destination name value key filled in
    let rest = find-merge_variable_tables k d (merge_entry d destination (name, value)) source h in
    elim (Bool-cases (equal name k)) [
      | inl same ↦
          let at : name ≡ k = (equal_iff name k).0 same in
          let gone : find k source ≡ none = ap (λ x. find x source) (sym at) ∙ new in
          rest ∙ rw (gone, same) (rw same at entry)
      | inr other ↦ rest ∙ rw (rw other at entry, other)
    ]

-- Assigning keeps a table a table, so the tables that the program builds have this form.
pub assign-IsTable :
    (d : VariableDialect) (key : Bytes) (value : Option Bytes) (t : VariableTable)
    → table_key d key ≡ key
    → value ≢ some []
    → IsTable d t
    → IsTable d (assign key value t)
unfolding assign find
assign-IsTable d key value [] hk hv h = (hk, hv, refl, tt)
assign-IsTable d key value ((name, old) ∷ t) hk hv (hn, ho, new, h) =
    elim (Bool-cases (equal name key)) [
      | inl same ↦ rw same (hn, hv, new, h)
      | inr other ↦
          let apart : equal key name ≡ false =
            ground (arith, equal_iff name key, equal_iff key name) in
          let still_new : find name (assign key value t) ≡ none =
            find-assign name key value t ∙ rw (apart, new) in
          rw other (hn, ho, still_new, assign-IsTable d key value t hk hv h)
    ]

agreed_comm : (a b : Option (Option Bytes)) → agreed a b ≡ agreed b a
agreed_comm none none = refl
agreed_comm none (some b) = refl
agreed_comm (some a) none = refl
agreed_comm (some none) (some none) = refl
agreed_comm (some none) (some (some b)) = refl
agreed_comm (some (some a)) (some none) = refl
agreed_comm (some (some a)) (some (some b)) = ground (arith, equal_iff a b, equal_iff b a)

-- Two tables say the same of every variable whichever is merged into the other.
pub merge_variable_tables_comm :
    (d : VariableDialect) (a b : VariableTable)
    → IsTable d a
    → IsTable d b
    → (k : Bytes) → find k (merge_variable_tables a d b) ≡ find k (merge_variable_tables b d a)
merge_variable_tables_comm d a b ha hb k =
    find-merge_variable_tables k d a b hb
    ∙ agreed_comm (find k a) (find k b)
    ∙ sym (find-merge_variable_tables k d b a ha)
