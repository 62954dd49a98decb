-- ===== src/Core/BuildVariables/Table.antt =====
-- `record_variable_definition` of src/core/build_variables.cpp: what a table says of a variable.
use bomwerk.Prelude.{
  ◌≡◌, ◌≢◌, ◌↔◌, refl, sym, ap, ◌∙◌, true, false, Option, none, some, List, [], ◌∷◌, arith, inl,
  inr, Bytes, equal, equal_iff, is_empty, All, Bool-cases, if◌then◌else◌,
}
use mathlib.Core.Option.{some-injective}
use bomwerk.Core.BuildVariables.{
  VariableDialect, VariableTable, table_key, find, assign, redefined, record_variable_definition,
}

pub find-assign :
    (k key : Bytes) (value : Option Bytes) (t : VariableTable)
    → find k (assign key value t) ≡ (if equal key k then some value else find k t)
unfolding find assign
find-assign k key value [] = refl
find-assign k key value ((name, old) ∷ t) =
    ground (arith, equal_iff name key, equal_iff name k, equal_iff key k, find-assign k key value t)

-- What a definition makes of what is known of its variable.
abbrev pub joined : Option (Option Bytes) → Bytes → Option (Option Bytes)
joined none value = if is_empty value then some none else some (some value)
joined (some none) value = some none
joined (some (some old)) value =
    if is_empty value then some none else if equal old value then some (some old) else some none

same_key :
    (k key : Bytes) (known : Option (Option Bytes)) (t : VariableTable)
    → find key t ≡ known
    → find k t ≡ (if equal key k then known else find k t)
same_key k key known t h = elim (Bool-cases (equal key k)) [
  | inl same ↦ rw same (ap (λ x. find x t) (sym ((equal_iff key k).0 same)) ∙ h)
  | inr other ↦ rw other
]

emptied :
    (known : Option (Option Bytes)) (value : Bytes)
    → is_empty value ≡ true
    → joined known value ≡ some none
emptied none value h = rw h
emptied (some none) value h = refl
emptied (some (some old)) value h = rw h

redefined_lem :
    (k key value : Bytes) (known : Option (Option Bytes)) (t : VariableTable)
    → find key t ≡ known
    → is_empty value ≡ false
    → find k (redefined key value known t) ≡ (if equal key k then joined known value else find k t)
unfolding redefined
redefined_lem k key value none t h filled = rw filled (find-assign k key (some value) t)
redefined_lem k key value (some none) t h filled = same_key k key (some none) t h
redefined_lem k key value (some (some old)) t h filled = elim (Bool-cases (equal old value)) [
  | inl same ↦ rw (filled, same) (same_key k key (some (some old)) t h)
  | inr other ↦ rw (filled, other) (find-assign k key none t)
]

pub find-record :
    (k : Bytes) (t : VariableTable) (d : VariableDialect) (name value : Bytes)
    → find k (record_variable_definition t d name value)
      ≡ (if equal (table_key d name) k then joined (find (table_key d name) t) value else find k t)
unfolding record_variable_definition
find-record k t d name value = elim (Bool-cases (is_empty value)) [
  | inl blank ↦
      rw (blank, emptied (find (table_key d name) t) value blank)
        (find-assign k (table_key d name) none t)
  | inr filled ↦
      rw filled (redefined_lem k (table_key d name) value (find (table_key d name) t) t refl filled)
]

-- The definitions of a file, one after the other.
pub record_all : VariableTable → VariableDialect → List (Bytes × Bytes) → VariableTable
record_all t d [] = t
record_all t d ((name, value) ∷ definitions) =
    record_all (record_variable_definition t d name value) d definitions

-- The values that a variable is given.
pub values_of : VariableDialect → Bytes → List (Bytes × Bytes) → List Bytes
values_of d k [] = []
values_of d k ((name, value) ∷ definitions) =
    if equal (table_key d name) k
    then value ∷ values_of d k definitions
    else values_of d k definitions

joined_all : Option (Option Bytes) → List Bytes → Option (Option Bytes)
joined_all known [] = known
joined_all known (value ∷ values) = joined_all (joined known value) values

find-record_all :
    (k : Bytes) (t : VariableTable) (d : VariableDialect) (definitions : List (Bytes × Bytes))
    → find k (record_all t d definitions) ≡ joined_all (find k t) (values_of d k definitions)
unfolding record_all values_of joined_all
find-record_all k t d [] = refl
find-record_all k t d ((name, value) ∷ definitions) =
    let step = find-record k t d name value in
    let rest = find-record_all k (record_variable_definition t d name value) d definitions in
    elim (Bool-cases (equal (table_key d name) k)) [
      | inl same ↦
          let key : table_key d name ≡ k = (equal_iff (table_key d name) k).0 same in
          let known : find k (record_variable_definition t d name value) ≡ joined (find k t) value =
            rw same at step ∙ ap (λ x. joined (find x t) value) key in
          rest ∙ rw (same, known)
      | inr other ↦ rest ∙ rw (other, rw other at step)
    ]

ambiguous_stays : (values : List Bytes) → joined_all (some none) values ≡ some none
unfolding joined_all
ambiguous_stays [] = refl
ambiguous_stays (value ∷ values) = ambiguous_stays values

blank-eq : (s : Bytes) → is_empty s ≡ true → s ≡ []
blank-eq [] h = refl
blank-eq (x ∷ s) h = cc

known_stays :
    (old v : Bytes) (values : List Bytes)
    → old ≢ []
    → (joined_all (some (some old)) values ≡ some (some v)) ↔ ((old ≡ v) × All (λ w. w ≡ v) values)
unfolding joined_all
known_stays old v [] filled =
    (λ h. (some-injective _ _ (some-injective _ _ h), tt), λ (e, _). ap (λ w. some (some w)) e)
known_stays old v (value ∷ values) filled = elim (Bool-cases (is_empty value)) [
  | inl blank ↦
      let gone : joined_all (joined (some (some old)) value) values ≡ some none =
        rw blank (ambiguous_stays values) in
      (
        λ h. absurd (ground arith),
        λ (e, (f, _)). absurd (filled (e ∙ sym f ∙ blank-eq value blank)),
      )
  | inr given ↦ elim (Bool-cases (equal old value)) [
    | inl same ↦
        let (to, from) = known_stays old v values filled in
        let key : old ≡ value = (equal_iff old value).0 same in
        (
          λ h. let (e, all) = to (rw (given, same) at h) in (e, (sym key ∙ e, all)),
          λ (e, (f, all)). rw (given, same) (from (e, all)),
        )
    | inr other ↦
        let gone : joined_all (joined (some (some old)) value) values ≡ some none =
          rw (given, other) (ambiguous_stays values) in
        (
          λ h. absurd (ground arith),
          λ (e, (f, _)). absurd (ground (arith, (equal_iff old value).1 (e ∙ sym f))),
        )
  ]
]

first_value :
    (v : Bytes) (values : List Bytes)
    → (joined_all none values ≡ some (some v))
      ↔ ((values ≢ []) × (v ≢ []) × All (λ w. w ≡ v) values)
unfolding joined_all
first_value v [] = (λ h. cc, λ (filled, _, _). absurd (filled refl))
first_value v (value ∷ values) = elim (Bool-cases (is_empty value)) [
  | inl blank ↦
      let gone : joined_all (joined none value) values ≡ some none =
        rw blank (ambiguous_stays values) in
      (
        λ h. absurd (ground arith),
        λ (_, filled, (f, _)). absurd (filled (sym f ∙ blank-eq value blank)),
      )
  | inr given ↦
      let filled : value ≢ [] = λ e. ground (arith, ap is_empty e) in
      let (to, from) = known_stays value v values filled in
      (
        λ h.
            let (e, all) = to (rw given at h) in
            (λ none_left. cc, λ blank. filled (e ∙ blank), (e, all)),
        λ (_, _, (e, all)). rw given (from (e, all)),
      )
]

-- However often and in whatever order a build defines its variables, the table gives a variable a
-- value exactly when it is defined, with that value every time, and the value is not empty.
pub find-record_all_iff :
    (d : VariableDialect) (definitions : List (Bytes × Bytes)) (k v : Bytes)
    → (find k (record_all [] d definitions) ≡ some (some v))
      ↔ ((values_of d k definitions ≢ []) × (v ≢ []) × All (λ w. w ≡ v) (values_of d k definitions))
unfolding find
find-record_all_iff d definitions k v =
    let (to, from) = first_value v (values_of d k definitions) in
    (
      λ h. to (sym (find-record_all k [] d definitions) ∙ h),
      λ h. find-record_all k [] d definitions ∙ from h,
    )
