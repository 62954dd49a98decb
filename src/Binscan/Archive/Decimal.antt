-- ===== src/Binscan/Archive/Decimal.antt =====
-- `parse_decimal_field` of src/binscan/archive_read.cpp against the number that digits write.
use mathlib.Core.Option.{some-injective}
use bomwerk.Prelude.{
  ℕ, ◌+◌, ◌-◌, ◌*◌, ◌/◌, ◌≤◌, ◌<◌, ◌≡◌, ◌↔◌, refl, ap, true, false, ◌||◌, some, [], ◌∷◌, arith,
  Bytes, is_empty, all_of, between, ltb, unless_some,
}
use bomwerk.Core.Text.{trimmed}
use bomwerk.Binscan.Cursor.{word}
use bomwerk.Binscan.Archive.{decimal_from, parse_decimal_field}

-- the number that a text of digits writes, behind the digits of `value`
pub number_from : ℕ → Bytes → ℕ
number_from value [] = value
number_from value (c ∷ digits) = number_from (value * 10 + (c - b'0')) digits

number_from_grows : (value : ℕ) (digits : Bytes) → value ≤ number_from value digits
unfolding number_from
number_from_grows value [] = omega arith
number_from_grows value (c ∷ digits) =
    omega (arith, number_from_grows (value * 10 + (c - b'0')) digits)

abbrev pub IsNumber : ℕ → Bytes → ℕ → Type 0
IsNumber value digits n =
    (all_of (between b'0' b'9') digits ≡ true) × (number_from value digits ≡ n) × (n < word)

decimal_from_sound :
    (value n : ℕ) (digits : Bytes)
    → value < word
    → decimal_from value digits ≡ some n
    → IsNumber value digits n
unfolding decimal_from number_from
decimal_from_sound value n [] h e =
    let same : value ≡ n = some-injective value n e in (refl, same, omega arith)
decimal_from_sound value n (c ∷ digits) h e =
    let (digit, later) = unless_some (ltb c b'0' || ltb b'9' c) _ n e in
    let (fits, rest) = unless_some (ltb ((word - 1 - (c - b'0')) / 10) value) _ n later in
    let small : value * 10 + (c - b'0') < word = ground arith in
    let (all, number, bound) = decimal_from_sound (value * 10 + (c - b'0')) n digits small rest in
    (ground arith, number, bound)

decimal_from_complete :
    (value n : ℕ) (digits : Bytes) → IsNumber value digits n → decimal_from value digits ≡ some n
unfolding decimal_from number_from
decimal_from_complete value n [] (all, number, bound) = ap some number
decimal_from_complete value n (c ∷ digits) (all, number, bound) =
    let grows : value * 10 + (c - b'0') ≤ number_from (value * 10 + (c - b'0')) digits =
      number_from_grows (value * 10 + (c - b'0')) digits in
    let digit : (ltb c b'0' || ltb b'9' c) ≡ false = ground arith in
    let fits : ltb ((word - 1 - (c - b'0')) / 10) value ≡ false = ground arith in
    rw (digit, fits)
      (decimal_from_complete (value * 10 + (c - b'0')) n digits (ground arith, number, bound))

-- A field is read exactly when, without the whitespace before and behind it (blanks, tabs and line
-- ends, not only the blanks behind it), it is one or more decimal digits that write a number of 64 bits: the test for overflow refuses no number that fits, and lets none pass that does not.
pub parse_decimal_field_iff :
    (field : Bytes) (n : ℕ)
    → (parse_decimal_field field ≡ some n)
      ↔ ((is_empty (trimmed field) ≡ false) × IsNumber 0 (trimmed field) n)
unfolding parse_decimal_field
parse_decimal_field_iff field n = (
  λ h.
      let (some_digit, rest) = unless_some (is_empty (trimmed field)) _ n h in
      (some_digit, decimal_from_sound 0 n (trimmed field) (omega arith) rest),
  λ (some_digit, number). rw (some_digit) (decimal_from_complete 0 n (trimmed field) number),
)
