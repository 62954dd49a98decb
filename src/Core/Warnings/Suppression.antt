-- ===== src/Core/Warnings/Suppression.antt =====
-- `is_code_suppressed` of src/core/warning.hpp.
use mathlib.Core.Option.{some-injective}
use bomwerk.Prelude.{
  ◌≡◌, ◌↔◌, ◌⊎◌, ◌+◌, refl, sym, ap, ap₂, ◌∙◌, Bool, true, false, inl, inr, [], ◌∷◌, ◌++◌, List, ℕ,
  arith, Bytes, equal, equal_iff, length, Any, Fails, find_first, find_first-append,
  find_first-none, take, drop, take-length-append, drop_past, ◌==◌, Bool-cases, if◌then◌else◌,
}
use bomwerk.Core.Warnings.{contains, is_code_suppressed}

abbrev is_colon : ℕ → Bool
is_colon c = c == b':'

-- an entry that names a warning's code, alone or narrowed to its ecosystem
abbrev pub Covers : Bytes → Bytes → Bytes → Type 0
Covers code_id ecosystem entry = (entry ≡ code_id) ⊎ (entry ≡ code_id ++ b':' ∷ ecosystem)

contains_sound :
    (entries : List Bytes) (key : Bytes)
    → contains entries key ≡ true
    → Any (λ entry. entry ≡ key) entries
contains_sound [] key h = cc
contains_sound (e ∷ entries) key h = elim (Bool-cases (equal e key)) [
  | inl found ↦ inl ((equal_iff e key).0 found)
  | inr miss ↦ inr (contains_sound entries key (ground arith))
]

contains_complete :
    (entries : List Bytes) (key : Bytes)
    → Any (λ entry. entry ≡ key) entries
    → contains entries key ≡ true
contains_complete [] key h = elim h [ ]
contains_complete (e ∷ entries) key (inl same) = ground (arith, (equal_iff e key).1 same)
contains_complete (e ∷ entries) key (inr later) =
    ground (arith, contains_complete entries key later)

contains_iff :
    (entries : List Bytes) (key : Bytes)
    → (contains entries key ≡ true) ↔ Any (λ entry. entry ≡ key) entries
contains_iff entries key = (contains_sound entries key, contains_complete entries key)

module _ {A : Type 0} (P Q : A → Type 0) where
  Any-left : (xs : List A) → Any P xs → Any (λ x. P x ⊎ Q x) xs
  Any-left [] h = h
  Any-left (x ∷ xs) (inl h) = inl (inl h)
  Any-left (x ∷ xs) (inr h) = inr (Any-left xs h)

  Any-right : (xs : List A) → Any Q xs → Any (λ x. P x ⊎ Q x) xs
  Any-right [] h = h
  Any-right (x ∷ xs) (inl h) = inl (inr h)
  Any-right (x ∷ xs) (inr h) = inr (Any-right xs h)

  Any-either : (xs : List A) → Any (λ x. P x ⊎ Q x) xs → Any P xs ⊎ Any Q xs
  Any-either [] h = elim h [ ]
  Any-either (x ∷ xs) (inl (inl h)) = inl (inl h)
  Any-either (x ∷ xs) (inl (inr h)) = inr (inl h)
  Any-either (x ∷ xs) (inr h) = elim (Any-either xs h) [
    | inl left ↦ inl (inr left)
    | inr right ↦ inr (inr right)
  ]

second_test : (a b : Bool) → a ≡ false → (if a then true else b) ≡ true → b ≡ true
second_test true b h k = cc
second_test false b h k = k

or_second : (a b : Bool) → b ≡ true → (if a then true else b) ≡ true
or_second true b h = refl
or_second false b h = h

-- A code is suppressed in an ecosystem when some entry is the code, or the code, a colon and the
-- ecosystem.
pub is_code_suppressed_iff :
    (code_id ecosystem : Bytes) (entries : List Bytes)
    → (is_code_suppressed code_id ecosystem entries ≡ true) ↔ Any (Covers code_id ecosystem) entries
unfolding is_code_suppressed
is_code_suppressed_iff code_id ecosystem entries =
    let whole = code_id ++ b':' ∷ ecosystem in
    let narrowed = contains_iff entries whole in
    let bare = contains_iff entries code_id in
    (
      λ h. elim (Bool-cases (contains entries code_id)) [
        | inl e ↦ Any-left (λ x. x ≡ code_id) (λ x. x ≡ whole) entries (bare.0 e)
        | inr e ↦
            Any-right (λ x. x ≡ code_id) (λ x. x ≡ whole) entries (narrowed.0 (second_test _ _ e h))
      ],
      λ found. elim (Any-either (λ x. x ≡ code_id) (λ x. x ≡ whole) entries found) [
        | inl left ↦ rw (bare.1 left) refl
        | inr right ↦ or_second (contains entries code_id) _ (narrowed.1 right)
      ],
    )

-- Text before the first colon, and behind it.
split_unique :
    (a b s t : Bytes)
    → Fails is_colon a
    → Fails is_colon b
    → a ++ b':' ∷ s ≡ b ++ b':' ∷ t
    → (a ≡ b) × (s ≡ t)
split_unique a b s t ha hb e =
    let size : length a ≡ length b = some-injective _ _ (
      sym (find_first-append is_colon a b':' s ha refl)
      ∙ ap (find_first is_colon) e
      ∙ find_first-append is_colon b b':' t hb refl) in
    (
      sym (take-length-append a (b':' ∷ s)) ∙ ap₂ take size e ∙ take-length-append b (b':' ∷ t),
      sym (drop_past a b':' s) ∙ ap₂ (λ n w. drop (n + 1) w) size e ∙ drop_past b b':' t,
    )

no_colon :
    (a s code_id : Bytes) → Fails is_colon code_id → Fails is_colon a → a ++ b':' ∷ s ≡ code_id → ⊥
no_colon a s code_id h k e = cc (
    sym (find_first-append is_colon a b':' s k refl)
    ∙ ap (find_first is_colon) e
    ∙ find_first-none is_colon code_id h)

-- A narrowed entry suppresses the code in its own ecosystem and nothing else, where no code holds
-- a colon.
pub is_code_suppressed-narrowed :
    (code_id ecosystem narrowed_code narrowed_ecosystem : Bytes)
    → Fails is_colon code_id
    → Fails is_colon narrowed_code
    → (is_code_suppressed code_id ecosystem ((narrowed_code ++ b':' ∷ narrowed_ecosystem) ∷ [])
        ≡ true)
      ↔ ((narrowed_code ≡ code_id) × (narrowed_ecosystem ≡ ecosystem))
is_code_suppressed-narrowed code_id ecosystem narrowed_code narrowed_ecosystem h k =
    let entry = narrowed_code ++ b':' ∷ narrowed_ecosystem in
    let covered = is_code_suppressed_iff code_id ecosystem (entry ∷ []) in
    (
      λ suppressed. elim (covered.0 suppressed) [
        | inl (inl bare) ↦ absurd (no_colon narrowed_code narrowed_ecosystem code_id h k bare)
        | inl (inr same) ↦ split_unique narrowed_code code_id narrowed_ecosystem ecosystem k h same
        | inr nothing ↦ elim nothing [ ]
      ],
      λ (same_code, same_ecosystem).
          covered.1 (inl (inr (ap₂ (λ c e. c ++ b':' ∷ e) same_code same_ecosystem))),
    )
