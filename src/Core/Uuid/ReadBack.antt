-- ===== src/Core/Uuid/ReadBack.antt =====
-- `Uuid::to_string` of src/core/uuid.cpp: the groups of the text, and the text read back.
use bomwerk.Prelude.{
  ℕ, zero, suc, ◌/◌, ◌+◌, ◌^◌, ◌≤◌, ◌≡◌, refl, sym, ap, ap₂, ◌∙◌, ◌&&◌, Bool, true, [], ◌∷◌, ◌++◌,
  append_assoc, arith, Bytes, is_empty, length, length-take, length-drop, take, drop,
  take-append-drop, get_or, bit_and,
}
use bomwerk.Core.Sha256.{to_hex}
use bomwerk.Core.Sha256.Blocks.{drop-drop}
use bomwerk.Core.Uuid.{Uuid, dash_before, formatted_from, to_string, hex_alphabet}

no_dash : ℕ → ℕ → Bool
no_dash i zero = true
no_dash i (suc n) = is_empty (dash_before i) && no_dash (i + 1) n

empty-eq : (s : Bytes) → is_empty s ≡ true → s ≡ []
empty-eq [] h = refl
empty-eq (x ∷ s) h = cc

formatted_plain :
    (n i : ℕ) (a : Bytes) → length a ≡ n → no_dash i n ≡ true → formatted_from i a ≡ to_hex a
unfolding formatted_from to_hex no_dash
formatted_plain n i [] e h = refl
formatted_plain zero i (x ∷ a) e h = absurd (omega arith)
formatted_plain (suc n) i (x ∷ a) e h = rw (empty-eq (dash_before i) (ground arith)) (
    ap (λ t. get_or hex_alphabet (x / 2 ^ 4) 0 ∷ get_or hex_alphabet (bit_and x 0x0F) 0 ∷ t)
      (formatted_plain n (i + 1) a (omega arith) (ground arith)))

formatted_dashed :
    (n i : ℕ) (a : Bytes)
    → length a ≡ suc n
    → dash_before i ≡ b'-' ∷ []
    → no_dash (i + 1) n ≡ true
    → formatted_from i a ≡ b'-' ∷ to_hex a
unfolding formatted_from to_hex
formatted_dashed n i [] e d h = absurd (omega arith)
formatted_dashed n i (x ∷ a) e d h = rw d (
    ap (λ t. b'-' ∷ get_or hex_alphabet (x / 2 ^ 4) 0 ∷ get_or hex_alphabet (bit_and x 0x0F) 0 ∷ t)
      (formatted_plain n (i + 1) a (omega arith) h))

formatted_from-append :
    (i : ℕ) (a b : Bytes)
    → formatted_from i (a ++ b) ≡ formatted_from i a ++ formatted_from (i + length a) b
unfolding formatted_from
formatted_from-append i [] b = ap (λ (j : ℕ). formatted_from j b) (omega arith)
formatted_from-append i (x ∷ a) b =
    let further : i + suc (length a) ≡ i + 1 + length a = omega arith in
    rw (further, formatted_from-append (i + 1) a b)
      (sym (
        append_assoc (dash_before i) (_ ∷ _ ∷ formatted_from (i + 1) a)
          (formatted_from (i + 1 + length a) b)))

-- The next group, and the rest.
next_group :
    (i n : ℕ) (s : Bytes)
    → suc n ≤ length s
    → dash_before i ≡ b'-' ∷ []
    → no_dash (i + 1) n ≡ true
    → formatted_from i s
      ≡ b'-' ∷ to_hex (take (suc n) s) ++ formatted_from (i + suc n) (drop (suc n) s)
next_group i n s h d plain =
    let size : length (take (suc n) s) ≡ suc n = omega (arith, length-take (suc n) s) in
    ap (formatted_from i) (sym (take-append-drop (suc n) s))
    ∙ formatted_from-append i (take (suc n) s) (drop (suc n) s)
    ∙ ap₂ (λ t (j : ℕ). t ++ formatted_from j (drop (suc n) s))
        (formatted_dashed n i (take (suc n) s) size d plain) (ap (λ (k : ℕ). i + k) size)

-- The text of a UUID is its bytes in lowercase hex digits, in groups of 4, 2, 2, 2 and 6 bytes with
-- a dash between them.
pub to_string_lem :
    (u : Uuid)
    → length u.bytes ≡ 16
    → to_string u
      ≡ to_hex (take 4 u.bytes)
        ++ (b'-' ∷ to_hex (take 2 (drop 4 u.bytes))
            ++ (b'-' ∷ to_hex (take 2 (drop 6 u.bytes))
                ++ (b'-' ∷ to_hex (take 2 (drop 8 u.bytes)) ++ (b'-' ∷ to_hex (drop 10 u.bytes)))))
unfolding to_string dash_before no_dash
to_string_lem u size =
    let b = u.bytes in
    let first : length (take 4 b) ≡ 4 = omega (arith, length-take 4 b) in
    let left4 = length-drop 4 b in
    let left6 = length-drop 6 b in
    let left8 = length-drop 8 b in
    let left10 = length-drop 10 b in
    ap (formatted_from 0) (sym (take-append-drop 4 b))
    ∙ formatted_from-append 0 (take 4 b) (drop 4 b)
    ∙ ap₂ (λ t (j : ℕ). t ++ formatted_from (0 + j) (drop 4 b))
        (formatted_plain 4 0 (take 4 b) first refl) first
    ∙ ap (λ t. to_hex (take 4 b) ++ t)
        (next_group 4 1 (drop 4 b) (omega arith) refl refl
          ∙ ap (λ t. b'-' ∷ to_hex (take 2 (drop 4 b)) ++ t)
              (ap (formatted_from 6) (drop-drop 4 2 b)
                ∙ next_group 6 1 (drop 6 b) (omega arith) refl refl
                ∙ ap (λ t. b'-' ∷ to_hex (take 2 (drop 6 b)) ++ t)
                    (ap (formatted_from 8) (drop-drop 6 2 b)
                      ∙ next_group 8 1 (drop 8 b) (omega arith) refl refl
                      ∙ ap (λ t. b'-' ∷ to_hex (take 2 (drop 8 b)) ++ t)
                          (ap (formatted_from 10) (drop-drop 8 2 b)
                            ∙ formatted_dashed 5 10 (drop 10 b) (omega arith) refl refl))))
