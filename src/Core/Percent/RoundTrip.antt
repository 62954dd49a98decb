-- ===== src/Core/Percent/RoundTrip.antt =====
-- `percent_encode` and `percent_decode` of src/core/percent.cpp together.
use bomwerk.Prelude.{
  ℕ, ◌/◌, ◌%◌, ◌<◌, ◌≡◌, ◌⊎◌, refl, ap, ◌∙◌, true, false, inl, inr, Option, none, some, [], ◌∷◌,
  ◌++◌, arith, Bytes, IsByte, All, All-append, get_or, ◌==◌, ==_iff, Bool-cases, bit_and,
  bit_and_0x0F, bit_or_disjoint, holds_below, holds_below_lem,
}
use bomwerk.Core.Percent.{
  upper_hex_digits, hex_digit_value, is_unreserved, encoded_char, percent_encode, escape_value,
  percent_decode,
}

abbrev value_or : Option ℕ → ℕ
value_or none = 16
value_or (some n) = n

hex_table :
    holds_below 16 (λ n. value_or (hex_digit_value (get_or upper_hex_digits n 0)) == n) ≡ true
unfolding holds_below hex_digit_value
hex_table = refl

below_16 : (o : Option ℕ) (n : ℕ) → n < 16 → value_or o ≡ n → o ≡ some n
below_16 none n h e = absurd (omega arith)
below_16 (some m) n h e = ap some e

hex_digit_value_upper : (n : ℕ) → n < 16 → hex_digit_value (get_or upper_hex_digits n 0) ≡ some n
hex_digit_value_upper n h = below_16 _ n h (
    (==_iff _ n).0 (
      holds_below_lem 16 (λ n. value_or (hex_digit_value (get_or upper_hex_digits n 0)) == n) n
        hex_table h))

escape_value_lem :
    (c : ℕ)
    → IsByte c
    → escape_value (get_or upper_hex_digits (c / 16) 0) (get_or upper_hex_digits (bit_and c 0x0F) 0)
      ≡ some c
unfolding escape_value
escape_value_lem c h = ground (
  arith,
  bit_and_0x0F c,
  hex_digit_value_upper (c / 16) (omega arith),
  hex_digit_value_upper (c % 16) (omega arith),
  bit_or_disjoint 4 (c / 16) (c % 16) (omega arith),
)

pub decode_plain :
    (c : ℕ) (s : Bytes) → (c == b'%') ≡ false → percent_decode (c ∷ s) ≡ c ∷ percent_decode s
unfolding percent_decode
decode_plain c [] h = refl
decode_plain c (d ∷ []) h = refl
decode_plain c (d ∷ e ∷ s) h = ground (arith, h)

decode_escape :
    (c : ℕ) (s : Bytes)
    → IsByte c
    → percent_decode
        (b'%' ∷ get_or upper_hex_digits (c / 16) 0 ∷ get_or upper_hex_digits (bit_and c 0x0F) 0 ∷ s)
      ≡ c ∷ percent_decode s
unfolding percent_decode
decode_escape c s h = ground (arith, escape_value_lem c h)

pub decode_char :
    (c : ℕ) (s : Bytes) → IsByte c → percent_decode (encoded_char c ++ s) ≡ c ∷ percent_decode s
unfolding encoded_char
decode_char c s h = elim (Bool-cases (is_unreserved c)) [
  | inl e ↦ rw e (decode_plain c s (ground (arith, e)))
  | inr e ↦ rw e (decode_escape c s h)
]

-- Decoding undoes encoding, for every text of bytes.
pub percent_decode-percent_encode :
    (s : Bytes) → All IsByte s → percent_decode (percent_encode s) ≡ s
unfolding percent_encode
percent_decode-percent_encode [] h = unfold percent_decode in refl
percent_decode-percent_encode (c ∷ s) (hc, h) =
    decode_char c (percent_encode s) hc ∙ ap (λ t. c ∷ t) (percent_decode-percent_encode s h)

-- A byte of an encoded component: an unreserved character, or the percent sign of an escape.
abbrev pub IsEncoded : ℕ → Type 0
IsEncoded c = (is_unreserved c ≡ true) ⊎ (c ≡ b'%')

digit_table : holds_below 16 (λ n. is_unreserved (get_or upper_hex_digits n 0)) ≡ true
unfolding holds_below
digit_table = refl

digit_unreserved : (n : ℕ) → n < 16 → is_unreserved (get_or upper_hex_digits n 0) ≡ true
digit_unreserved n h =
    holds_below_lem 16 (λ n. is_unreserved (get_or upper_hex_digits n 0)) n digit_table h

pub char-IsEncoded : (c : ℕ) → IsByte c → All IsEncoded (encoded_char c)
unfolding encoded_char
char-IsEncoded c h = elim (Bool-cases (is_unreserved c)) [
  | inl e ↦ rw e (inl e, tt)
  | inr e ↦
      rw (e, bit_and_0x0F c)
        (
          inr refl,
          (
            inl (digit_unreserved (c / 16) (omega arith)),
            (inl (digit_unreserved (c % 16) (omega arith)), tt),
          ),
        )
]

-- An encoded component holds unreserved characters and percent signs only, so none of the bytes
-- that give a purl its structure.
pub percent_encode-IsEncoded : (s : Bytes) → All IsByte s → All IsEncoded (percent_encode s)
unfolding percent_encode
percent_encode-IsEncoded [] h = tt
percent_encode-IsEncoded (c ∷ s) (hc, h) =
    All-append IsEncoded (encoded_char c) (percent_encode s) (char-IsEncoded c hc)
      (percent_encode-IsEncoded s h)
