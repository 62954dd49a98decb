-- ===== src/Core/Model/Merge.antt =====
-- `merge_into` and `merge_all` of src/core/model.cpp.
use bomwerk.Prelude.{
  ◌≡◌, refl, ap, sym, ◌∙◌, Bool, true, false, Option, none, some, List, [], ◌∷◌, arith, Bytes, All,
  All-mono, IsIncreasing, equal, equal_iff, less, less-IsOrder, lt_irrefl, if◌then◌else◌,
  Bool-cases, inl, inr,
}
use bomwerk.Core.Model.{
  Component, normalize_evidence, component_identity, merge_into, ComponentMap, add_component,
  collect_components,
}

-- The map that `merge_all` builds, read at a key.
pub lookup_component : Bytes → ComponentMap → Option Component
lookup_component key [] = none
lookup_component key ((k, c) ∷ entries) =
    let later = lookup_component key entries in if equal k key then some c else later

-- A component that joins what is there under its identity.
abbrev pub absorb : Option Component → Component → Component
absorb none c = record c { evidence = normalize_evidence c.evidence }
absorb (some existing) c = merge_into existing c

-- The components with one identity, merged in the order in which they come.
pub gather : Bytes → Option Component → List Component → Option Component
gather key merged [] = merged
gather key merged (c ∷ cs) =
    gather key (if equal (component_identity c) key then some (absorb merged c) else merged) cs

abbrev pub key_before : Bytes × Component → Bytes × Component → Bool
key_before (k, c) (j, d) = less k j

abbrev pub HasKeysInOrder : ComponentMap → Type 0
HasKeysInOrder = IsIncreasing key_before

lookup_behind :
    (key : Bytes) (entries : ComponentMap)
    → All (λ (e : Bytes × Component). less key e.0 ≡ true) entries
    → lookup_component key entries ≡ none
unfolding lookup_component
lookup_behind key [] h = refl
lookup_behind key ((k, c) ∷ entries) (hk, h) =
    ground (arith, equal_iff k key, lt_irrefl less-IsOrder key, lookup_behind key entries h)

equal_refl : (s : Bytes) → equal s s ≡ true
equal_refl s = (equal_iff s s).1 refl

before_distinct : (s t : Bytes) → less s t ≡ true → equal s t ≡ false
before_distinct s t h = ground (arith, equal_iff s t, lt_irrefl less-IsOrder t)

before_distinct_inverse : (s t : Bytes) → less s t ≡ true → equal t s ≡ false
before_distinct_inverse s t h = ground (arith, equal_iff t s, lt_irrefl less-IsOrder t)

equal_sym : (s t : Bytes) → equal s t ≡ equal t s
equal_sym s t = ground (arith, equal_iff s t, equal_iff t s)

above : (s t : Bytes) → less s t ≡ false → equal s t ≡ false → less t s ≡ true
above s t h k = elim (Bool-cases (less t s)) [
  | inl e ↦ e
  | inr e ↦ cc ((equal_iff s t).1 (less-IsOrder.connex s t h e))
]

later_keys :
    (j k : Bytes) (m : ComponentMap)
    → less j k ≡ true
    → All (λ (e : Bytes × Component). less k e.0 ≡ true) m
    → All (λ (e : Bytes × Component). less j e.0 ≡ true) m
later_keys j k m h =
    All-mono (λ (e : Bytes × Component). less k e.0 ≡ true)
      (λ (e : Bytes × Component). less j e.0 ≡ true) m (λ e. less-IsOrder.trans j k e.0 h)

-- An insertion is read back under its key, and leaves every other key alone.
pub lookup_component-add_component :
    (j : Bytes) (c : Component) (key : Bytes) (m : ComponentMap)
    → HasKeysInOrder m
    → lookup_component j (add_component c key m)
      ≡ (if equal key j then some (absorb (lookup_component j m) c) else lookup_component j m)
unfolding lookup_component add_component
lookup_component-add_component j c key [] h = refl
lookup_component-add_component j c key ((k, d) ∷ m) (hk, h) = elim (Bool-cases (less k key)) [
  | inl lt ↦ elim (Bool-cases (equal key j)) [
    | inl e ↦
        let apart : equal k j ≡ false =
          sym (ap (equal k) ((equal_iff key j).0 e)) ∙ before_distinct k key lt in
        rw (lt, lookup_component, apart, lookup_component-add_component j c key m h, e) refl
    | inr e ↦ rw (lt, lookup_component, lookup_component-add_component j c key m h, e) refl
  ]
  | inr ge ↦ elim (Bool-cases (equal k key)) [
    | inl e ↦
        let same : equal key j ≡ equal k j = sym (ap (λ x. equal x j) ((equal_iff k key).0 e)) in
        elim (Bool-cases (equal k j)) [
          | inl f ↦ rw (ge, e, same, lookup_component, f) refl
          | inr f ↦ rw (ge, e, same, lookup_component, f) refl
        ]
    | inr e ↦ elim (Bool-cases (equal key j)) [
      | inl f ↦
          let apart : equal k j ≡ false = sym (ap (equal k) ((equal_iff key j).0 f)) ∙ e in
          let before : less j k ≡ true =
            ap (λ x. less x k) (sym ((equal_iff key j).0 f)) ∙ above k key ge e in
          rw (ge, e, lookup_component, f, apart, lookup_behind j m (later_keys j k m before hk))
            refl
      | inr f ↦ rw (ge, e, lookup_component, f) refl
    ]
  ]
]

later_keys-add_component :
    (j : Bytes) (c : Component) (key : Bytes) (m : ComponentMap)
    → less j key ≡ true
    → All (λ (e : Bytes × Component). less j e.0 ≡ true) m
    → All (λ (e : Bytes × Component). less j e.0 ≡ true) (add_component c key m)
unfolding add_component
later_keys-add_component j c key [] h a = (h, tt)
later_keys-add_component j c key ((k, d) ∷ m) h (hk, a) = elim (Bool-cases (less k key)) [
  | inl lt ↦ rw (lt) (hk, later_keys-add_component j c key m h a)
  | inr ge ↦ elim (Bool-cases (equal k key)) [
    | inl e ↦ rw (ge, e) (hk, a)
    | inr e ↦ rw (ge, e) (h, (hk, a))
  ]
]

-- An insertion keeps the keys in order.
pub add_component-HasKeysInOrder :
    (c : Component) (key : Bytes) (m : ComponentMap)
    → HasKeysInOrder m
    → HasKeysInOrder (add_component c key m)
unfolding add_component
add_component-HasKeysInOrder c key [] h = (tt, tt)
add_component-HasKeysInOrder c key ((k, d) ∷ m) (hk, h) = elim (Bool-cases (less k key)) [
  | inl lt ↦
      rw (lt) (later_keys-add_component k c key m lt hk, add_component-HasKeysInOrder c key m h)
  | inr ge ↦ elim (Bool-cases (equal k key)) [
    | inl e ↦ rw (ge, e) (hk, h)
    | inr e ↦ rw (ge, e) ((above k key ge e, later_keys key k m (above k key ge e) hk), (hk, h))
  ]
]

collect_components_from :
    (key : Bytes) (m : ComponentMap) (cs : List Component)
    → HasKeysInOrder m
    → (lookup_component key (collect_components m cs) ≡ gather key (lookup_component key m) cs)
      × HasKeysInOrder (collect_components m cs)
unfolding collect_components gather
collect_components_from key m [] h = (refl, h)
collect_components_from key m (c ∷ cs) h =
    let (read, ordered) =
      collect_components_from key (add_component c (component_identity c) m) cs
        (add_component-HasKeysInOrder c (component_identity c) m h) in
    (
      read
          ∙ ap (λ found. gather key found cs)
              (lookup_component-add_component key c (component_identity c) m h),
      ordered,
    )

-- Under every key the map that merge_all fills holds the components with that identity, merged in
-- the order of the input, and nothing when there is none; its keys are strictly increasing.
pub collect_components_lem :
    (key : Bytes) (components : List Component)
    → (lookup_component key (collect_components [] components) ≡ gather key none components)
      × HasKeysInOrder (collect_components [] components)
unfolding lookup_component
collect_components_lem key components = collect_components_from key [] components tt
