-- ===== src/Core/Text/Diagnostic.antt =====
-- `escaped_for_diagnostic` of src/core/text.cpp against a reader of its escapes.
use bomwerk.Prelude.{
  ℕ, ◌+◌, ◌-◌, ◌*◌, ◌/◌, ◌%◌, ◌≤◌, ◌<◌, ◌≡◌, ◌≢◌, refl, ap, ◌∙◌, true, false, ◌&&◌, Option, none,
  some, [], ◌∷◌, ◌++◌, arith, Bytes, IsByte, All, All-append, leb, ◌==◌, ==_iff, if◌then◌else◌,
  get_or, bit_and, bit_and_0x0F, holds_below, holds_below_lem,
}
use bomwerk.Core.Text.{lower_hex_digits, escaped_char, escaped_for_diagnostic}

data Mode : Type 0 where
  plain escape skip_one skip_two high : Mode
  low : ℕ → Mode

hex_value : ℕ → ℕ
hex_value c = if leb b'a' c then c - b'a' + 10 else c - b'0'

short_escape : ℕ → Option ℕ
short_escape c =
    if c == b'\\'
    then some b'\\'
    else if c == b'"'
    then some b'"'
    else if c == b'n'
    then some b'\n'
    else if c == b'r'
    then some b'\r'
    else if c == b't'
    then some b'\t'
    else none

prepend : ℕ → Option Bytes → Option Bytes
prepend c none = none
prepend c (some s) = some (c ∷ s)

-- A reader of escaped text, one byte at a time.
read : Mode → Bytes → Option Bytes
read plain [] = some []
read escape [] = none
read skip_one [] = none
read skip_two [] = none
read high [] = none
read (low h) [] = none
read plain (c ∷ s) = elim (c == b'\\') [ true ↦ read escape s | false ↦ prepend c (read plain s) ]
read escape (c ∷ s) = elim (c == b'u') [
  | true ↦ read skip_one s
  | false ↦ elim (short_escape c) [ some d ↦ prepend d (read plain s) | none ↦ none ]
]
read skip_one (c ∷ s) = read skip_two s
read skip_two (c ∷ s) = read high s
read high (c ∷ s) = read (low (hex_value c)) s
read (low h) (c ∷ s) = prepend (h * 16 + hex_value c) (read plain s)

pub unescaped : Bytes → Option Bytes
unescaped s = read plain s

hex_table : holds_below 16 (λ n. hex_value (get_or lower_hex_digits n 0) == n) ≡ true
unfolding holds_below hex_value
hex_table = refl

hex_digit_value : (n : ℕ) → n < 16 → hex_value (get_or lower_hex_digits n 0) ≡ n
hex_digit_value n h =
    (==_iff _ n).0
      (holds_below_lem 16 (λ n. hex_value (get_or lower_hex_digits n 0) == n) n hex_table h)

read_control :
    (c : ℕ) (rest : Bytes)
    → IsByte c
    → read high (
        get_or lower_hex_digits (bit_and (c / 16) 0x0F) 0
        ∷ get_or lower_hex_digits (bit_and c 0x0F) 0
        ∷ rest)
      ≡ prepend c (read plain rest)
unfolding read
read_control c rest h =
    rw
      (
        bit_and_0x0F (c / 16),
        bit_and_0x0F c,
        hex_digit_value (c / 16 % 16) (omega arith),
        hex_digit_value (c % 16) (omega arith),
      )
      (ap (λ t. prepend t (read plain rest)) (omega arith))

read_char :
    (c : ℕ) (rest : Bytes)
    → IsByte c
    → read plain (escaped_char c ++ rest) ≡ prepend c (read plain rest)
unfolding read escaped_char short_escape
read_char c rest h = ground (arith, read_control c rest h)

-- Escaped text can be read back, so two different texts never look the same in a diagnostic.
pub unescaped-escaped_for_diagnostic :
    (s : Bytes) → All IsByte s → unescaped (escaped_for_diagnostic s) ≡ some s
unfolding unescaped escaped_for_diagnostic prepend
unescaped-escaped_for_diagnostic [] h = unfold read in refl
unescaped-escaped_for_diagnostic (c ∷ s) (hc, h) =
    read_char c (escaped_for_diagnostic s) hc
    ∙ ap (prepend c) (unescaped-escaped_for_diagnostic s h)

abbrev pub IsPrintable : ℕ → Type 0
IsPrintable c = (0x20 ≤ c) × (c ≢ 0x7F)

printable_table :
    holds_below 16
      (λ n. leb 0x20 (get_or lower_hex_digits n 0) && leb (get_or lower_hex_digits n 0) 0x7E)
    ≡ true
unfolding holds_below
printable_table = refl

digit-IsPrintable : (n : ℕ) → n < 16 → IsPrintable (get_or lower_hex_digits n 0)
digit-IsPrintable n h =
    let t =
      holds_below_lem 16
        (λ n. leb 0x20 (get_or lower_hex_digits n 0) && leb (get_or lower_hex_digits n 0) 0x7E) n
        printable_table h in
    ground arith

nibble-IsPrintable : (n : ℕ) → IsPrintable (get_or lower_hex_digits (bit_and n 0x0F) 0)
nibble-IsPrintable n = rw (bit_and_0x0F n) (digit-IsPrintable (n % 16) (omega arith))

char-IsPrintable : (c : ℕ) → All IsPrintable (escaped_char c)
unfolding escaped_char
char-IsPrintable c = ground (arith, nibble-IsPrintable (c / 16), nibble-IsPrintable c)

-- Escaped text holds no control character, whatever the input holds.
pub escaped_for_diagnostic-IsPrintable : (s : Bytes) → All IsPrintable (escaped_for_diagnostic s)
unfolding escaped_for_diagnostic
escaped_for_diagnostic-IsPrintable [] = tt
escaped_for_diagnostic-IsPrintable (c ∷ s) =
    All-append IsPrintable (escaped_char c) (escaped_for_diagnostic s) (char-IsPrintable c)
      (escaped_for_diagnostic-IsPrintable s)
