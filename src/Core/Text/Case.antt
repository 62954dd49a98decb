-- ===== src/Core/Text/Case.antt =====
-- Letter case and object ids of src/core/text.cpp.
use bomwerk.Prelude.{
  ℕ, ◌≡◌, ◌↔◌, refl, ap, ap₂, sym, ◌∙◌, true, inl, inr, [], ◌∷◌, arith, ◌&&◌, Bytes, length, ◌==◌,
  ==_iff, Bool-cases, all_of, is_empty,
}
use bomwerk.Core.Text.{
  to_lower_ascii_char, to_lower_ascii, to_upper_ascii_char, to_upper_ascii, same_letters,
  equals_ascii_ignore_case, is_hex_digit, is_hex_digits, is_hex_object_id, normalized_object_id,
}

pub length-to_lower_ascii : (s : Bytes) → length (to_lower_ascii s) ≡ length s
unfolding to_lower_ascii
length-to_lower_ascii [] = refl
length-to_lower_ascii (c ∷ s) = omega (arith, length-to_lower_ascii s)

lower_char_twice : (c : ℕ) → to_lower_ascii_char (to_lower_ascii_char c) ≡ to_lower_ascii_char c
unfolding to_lower_ascii_char
lower_char_twice c = ground arith

lower_char_upper : (c : ℕ) → to_lower_ascii_char (to_upper_ascii_char c) ≡ to_lower_ascii_char c
unfolding to_lower_ascii_char to_upper_ascii_char
lower_char_upper c = ground arith

hex_char_lower : (c : ℕ) → is_hex_digit (to_lower_ascii_char c) ≡ is_hex_digit c
unfolding to_lower_ascii_char
hex_char_lower c = ground arith

-- Lower-casing a second time changes nothing.
pub to_lower_ascii_twice : (s : Bytes) → to_lower_ascii (to_lower_ascii s) ≡ to_lower_ascii s
unfolding to_lower_ascii
to_lower_ascii_twice [] = refl
to_lower_ascii_twice (c ∷ s) = ap₂ ◌∷◌ (lower_char_twice c) (to_lower_ascii_twice s)

pub to_lower_ascii-to_upper_ascii :
    (s : Bytes) → to_lower_ascii (to_upper_ascii s) ≡ to_lower_ascii s
unfolding to_lower_ascii to_upper_ascii
to_lower_ascii-to_upper_ascii [] = refl
to_lower_ascii-to_upper_ascii (c ∷ s) =
    ap₂ ◌∷◌ (lower_char_upper c) (to_lower_ascii-to_upper_ascii s)

same_letters-eq :
    (left right : Bytes)
    → length left ≡ length right
    → (same_letters left right ≡ true) ↔ (to_lower_ascii left ≡ to_lower_ascii right)
unfolding same_letters to_lower_ascii
same_letters-eq [] [] h = ground arith
same_letters-eq [] (y ∷ right) h = absurd (omega arith)
same_letters-eq (x ∷ left) [] h = absurd (omega arith)
same_letters-eq (x ∷ left) (y ∷ right) h = ground (arith, same_letters-eq left right (omega arith))

-- Two texts compare equal without regard to case exactly when they have the same lower-case form.
pub equals_ascii_ignore_case_iff :
    (left right : Bytes)
    → (equals_ascii_ignore_case left right ≡ true) ↔ (to_lower_ascii left ≡ to_lower_ascii right)
unfolding equals_ascii_ignore_case
equals_ascii_ignore_case_iff left right = elim (Bool-cases (length left == length right)) [
  | inl e ↦ rw e (same_letters-eq left right ((==_iff _ _).0 e))
  | inr e ↦ rw e (
    λ h. cc,
    λ h.
        let sizes : length left ≡ length right =
          sym (length-to_lower_ascii left) ∙ ap length h ∙ length-to_lower_ascii right in
        absurd (ground (arith, e)),
  )
]

hex_digits-lower : (s : Bytes) → all_of is_hex_digit (to_lower_ascii s) ≡ all_of is_hex_digit s
unfolding to_lower_ascii
hex_digits-lower [] = refl
hex_digits-lower (c ∷ s) = ap₂ ◌&&◌ (hex_char_lower c) (hex_digits-lower s)

is_empty-lower : (s : Bytes) → is_empty (to_lower_ascii s) ≡ is_empty s
unfolding to_lower_ascii
is_empty-lower [] = refl
is_empty-lower (c ∷ s) = refl

-- Lower-casing neither makes nor destroys an object id.
pub is_hex_object_id-to_lower_ascii :
    (s : Bytes) → is_hex_object_id (to_lower_ascii s) ≡ is_hex_object_id s
unfolding is_hex_object_id is_hex_digits
is_hex_object_id-to_lower_ascii s =
    rw (length-to_lower_ascii s, is_empty-lower s, hex_digits-lower s)

-- Two spellings of one object id are normalized to the same text, and normalizing is idempotent.
pub normalized_object_id_lem :
    (s t : Bytes)
    → is_hex_object_id s ≡ true
    → equals_ascii_ignore_case s t ≡ true
    → (normalized_object_id s ≡ normalized_object_id t)
      × (normalized_object_id (normalized_object_id s) ≡ normalized_object_id s)
unfolding normalized_object_id
normalized_object_id_lem s t hs same =
    let lowers : to_lower_ascii s ≡ to_lower_ascii t = (equals_ascii_ignore_case_iff s t).0 same in
    let hs' : is_hex_object_id (to_lower_ascii s) ≡ true = is_hex_object_id-to_lower_ascii s ∙ hs in
    let ht : is_hex_object_id t ≡ true =
      sym (is_hex_object_id-to_lower_ascii t) ∙ ap is_hex_object_id (sym lowers) ∙ hs' in
    (rw (hs, ht) lowers, rw (hs, hs') (to_lower_ascii_twice s))
