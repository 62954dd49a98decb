-- ===== src/Core/Text.antt =====
-- src/core/text.cpp: letter case, trimming, escaping and object ids, over ASCII bytes.
pub mod Case
pub mod Trim
pub mod Diagnostic
use bomwerk.Prelude.{
  ℕ, ◌+◌, ◌-◌, ◌/◌, ◌%◌, Bool, true, false, not, ◌&&◌, ◌||◌, Option, none, some, List, [], ◌∷◌,
  ◌++◌, map, Bytes, codes, length, drop, get_or, substr, find_first, find_last, ltb, ◌==◌, between,
  if◌then◌else◌, bit_and, is_empty, all_of,
}

unfoldable pub to_lower_ascii_char : ℕ → ℕ
to_lower_ascii_char c = if between b'A' b'Z' c then c - b'A' + b'a' else c

unfoldable pub to_lower_ascii : Bytes → Bytes
to_lower_ascii [] = []
to_lower_ascii (c ∷ s) = to_lower_ascii_char c ∷ to_lower_ascii s

unfoldable pub to_upper_ascii_char : ℕ → ℕ
to_upper_ascii_char c = if between b'a' b'z' c then c - b'a' + b'A' else c

unfoldable pub to_upper_ascii : Bytes → Bytes
to_upper_ascii [] = []
to_upper_ascii (c ∷ s) = to_upper_ascii_char c ∷ to_upper_ascii s

-- the loop of `equals_ascii_ignore_case`, over two texts of one size
same_letters : Bytes → Bytes → Bool
same_letters [] right = true
same_letters (x ∷ left) [] = true
same_letters (x ∷ left) (y ∷ right) =
    let rest = same_letters left right in
    if to_lower_ascii_char x == to_lower_ascii_char y then rest else false

unfoldable pub equals_ascii_ignore_case : Bytes → Bytes → Bool
unfolding same_letters
equals_ascii_ignore_case left right =
    if length left == length right then same_letters left right else false

-- kAsciiWhitespace
abbrev pub is_ascii_whitespace : ℕ → Bool
is_ascii_whitespace c = c == b' ' || c == b'\t' || c == b'\r' || c == b'\n'

abbrev pub not_whitespace : ℕ → Bool
not_whitespace c = not (is_ascii_whitespace c)

-- Where there is a first such byte there is a last one; were it missing, the count would reach the
-- end of the text.
unfoldable pub trimmed : Bytes → Bytes
trimmed s = elim (find_first not_whitespace s) [
  | none ↦ []
  | some first ↦ elim (find_last not_whitespace s) [
    | none ↦ drop first s
    | some last ↦ substr s first (last - first + 1)
  ]
]

abbrev pub lower_hex_digits : Bytes
lower_hex_digits = codes "0123456789abcdef"

unfoldable pub escaped_char : ℕ → Bytes
escaped_char c =
    if c == b'\\'
    then codes "\\\\"
    else if c == b'"'
    then codes "\\\""
    else if c == b'\n'
    then codes "\\n"
    else if c == b'\r'
    then codes "\\r"
    else if c == b'\t'
    then codes "\\t"
    else if ltb c 0x20 || c == 0x7F
    then codes "\\u00"
      ++ get_or lower_hex_digits (bit_and (c / 16) 0x0F) 0
        ∷ get_or lower_hex_digits (bit_and c 0x0F) 0
        ∷ []
    else c ∷ []

unfoldable pub escaped_for_diagnostic : Bytes → Bytes
escaped_for_diagnostic [] = []
escaped_for_diagnostic (c ∷ s) = escaped_char c ++ escaped_for_diagnostic s

unfoldable pub leading_space_count : Bytes → ℕ
leading_space_count [] = 0
leading_space_count (c ∷ s) = let rest = leading_space_count s in if c == b' ' then 1 + rest else 0

abbrev pub is_hex_digit : ℕ → Bool
is_hex_digit c = between b'0' b'9' c || between b'a' b'f' c || between b'A' b'F' c

unfoldable pub is_hex_digits : Bytes → Bool
is_hex_digits s = if is_empty s then false else all_of is_hex_digit s

abbrev pub sha1_hex_length : ℕ
sha1_hex_length = 40

abbrev pub sha256_hex_length : ℕ
sha256_hex_length = 64

unfoldable pub is_hex_object_id : Bytes → Bool
is_hex_object_id s =
    if not (length s == sha1_hex_length) && not (length s == sha256_hex_length)
    then false
    else is_hex_digits s

unfoldable pub normalized_object_id : Bytes → Bytes
normalized_object_id s = if not (is_hex_object_id s) then s else to_lower_ascii s
