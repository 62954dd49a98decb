-- ===== src/Binscan/Cursor/Reads.antt =====
-- The reads of src/binscan/byte_cursor.hpp.
use mathlib.Core.Option.{some-injective}
use mathlib.Core.Option
use bomwerk.Prelude.{
  ℕ, zero, suc, ◌+◌, ◌-◌, ◌≤◌, ◌<◌, ◌≡◌, ◌↔◌, refl, sym, ap, ap₂, subst, ◌∙◌, Bool, true, false,
  Option, none, some, [], ◌∷◌, ◌++◌, arith, Bytes, length, length-drop, length-append,
  take-length-append, take, drop, ltb, ◌==◌, Fails, if◌then◌else◌, Bool-cases, Option-cases, inl,
  inr, unless_some,
}
use bomwerk.Binscan.Cursor.{ByteCursor, has_range, nul_within, c_string_at}

-- A range fits exactly when it ends inside the image, whatever numbers a header declares: the sum is
-- taken without a bound, and the subtraction that the code uses in its place never goes below zero.
pub has_range_iff :
    (cursor : ByteCursor) (offset size : ℕ)
    → (has_range cursor offset size ≡ true) ↔ (offset + size ≤ length cursor.bytes)
unfolding has_range
has_range_iff cursor offset size = (λ h. ground arith, λ h. ground arith)

abbrev is_nul : ℕ → Bool
is_nul c = c == 0

nul_within_sound :
    (searchable size : ℕ) (s : Bytes)
    → nul_within searchable s ≡ some size
    → (front rest : Bytes) × (s ≡ front ++ 0 ∷ rest)
      × (length front ≡ size)
      × (size < searchable)
      × Fails is_nul front
unfolding nul_within
nul_within_sound zero size s h = cc
nul_within_sound (suc searchable) size [] h = cc
nul_within_sound (suc searchable) size (c ∷ s) h = elim (Bool-cases (c == 0)) [
  | inl e ↦ ([], s, ap (λ x. x ∷ s) (ground arith), ground arith, ground arith, tt)
  | inr e ↦ elim (Option-cases (nul_within searchable s)) [
    | inl miss ↦ absurd (ground arith)
    | inr (n, hit) ↦
        let (front, rest, whole, at, near, solid) = nul_within_sound searchable n s hit in
        (c ∷ front, rest, ap (λ t. c ∷ t) whole, ground arith, ground arith, (e, solid))
  ]
]

nul_within_complete :
    (searchable : ℕ) (front rest : Bytes)
    → Fails is_nul front
    → length front < searchable
    → nul_within searchable (front ++ 0 ∷ rest) ≡ some (length front)
unfolding nul_within
nul_within_complete zero front rest solid h = absurd (omega arith)
nul_within_complete (suc searchable) [] rest solid h = refl
nul_within_complete (suc searchable) (c ∷ front) rest (hc, solid) h =
    rw (hc, nul_within_complete searchable front rest solid (omega arith)) refl

-- A NUL-terminated string within reach of the offset, the NUL included, is in front of it.
abbrev pub IsStringAt : ByteCursor → ℕ → ℕ → Bytes → Type 0
IsStringAt cursor offset max_length name =
    (offset ≤ length cursor.bytes)
    × (length name < max_length)
    × Fails is_nul name
    × ((rest : Bytes) × (drop offset cursor.bytes ≡ name ++ 0 ∷ rest))

map-some :
    {A B : Type 0} (f : A → B) (o : Option A) (y : B)
    → Option.map f o ≡ some y
    → (x : A) × (o ≡ some x) × (f x ≡ y)
map-some f none y h = cc
map-some f (some x) y h = (x, refl, some-injective (f x) y h)

abbrev reach : ByteCursor → ℕ → ℕ → ℕ
reach cursor offset max_length =
    if ltb max_length (length cursor.bytes - offset)
    then max_length
    else length cursor.bytes - offset

c_string_at_sound :
    (cursor : ByteCursor) (offset max_length : ℕ) (name : Bytes)
    → c_string_at cursor offset max_length ≡ some name
    → IsStringAt cursor offset max_length name
unfolding c_string_at
c_string_at_sound cursor offset max_length name h =
    let (inside, found) = unless_some (ltb (length cursor.bytes) offset) _ name h in
    let (n, hit, taken) =
      map-some (λ size. take size (drop offset cursor.bytes))
        (nul_within (reach cursor offset max_length) (drop offset cursor.bytes)) name found in
    let (front, rest, whole, at, near, solid) =
      nul_within_sound (reach cursor offset max_length) n (drop offset cursor.bytes) hit in
    let same : front ≡ name =
      sym (take-length-append front (0 ∷ rest)) ∙ ap₂ take at (sym whole) ∙ taken in
    subst (IsStringAt cursor offset max_length) same
      (ground arith, ground arith, solid, (rest, whole))

c_string_at_complete :
    (cursor : ByteCursor) (offset max_length : ℕ) (name : Bytes)
    → IsStringAt cursor offset max_length name
    → c_string_at cursor offset max_length ≡ some name
unfolding c_string_at
c_string_at_complete cursor offset max_length name (inside, short, solid, (rest, whole)) =
    let past : ltb (length cursor.bytes) offset ≡ false = ground arith in
    let left : length cursor.bytes - offset ≡ length name + suc (length rest) =
      omega
        (arith, length-drop offset cursor.bytes, ap length whole, length-append name (0 ∷ rest)) in
    let near : length name < reach cursor offset max_length = ground arith in
    let hit : nul_within (reach cursor offset max_length) (name ++ 0 ∷ rest) ≡ some (length name) =
      nul_within_complete (reach cursor offset max_length) name rest solid near in
    rw (past, whole, hit) (ap some (take-length-append name (0 ∷ rest)))

-- The string at an offset is the text up to the first NUL, when the offset is in the image and that
-- NUL is in the image and less than the cap away; and nothing is read otherwise, so an unterminated
-- run is never cut into a name.
pub c_string_at_iff :
    (cursor : ByteCursor) (offset max_length : ℕ) (name : Bytes)
    → (c_string_at cursor offset max_length ≡ some name) ↔ IsStringAt cursor offset max_length name
c_string_at_iff cursor offset max_length name = (
  c_string_at_sound cursor offset max_length name,
  c_string_at_complete cursor offset max_length name,
)
