-- ===== src/Core/Percent.antt =====
-- src/core/percent.cpp: percent encoding of a purl component, of a purl namespace, and decoding.
pub mod RoundTrip
pub mod Namespace
use bomwerk.Prelude.{
  ℕ, zero, suc, ◌+◌, ◌-◌, ◌*◌, ◌/◌, Bool, true, false, ◌||◌, Option, none, some, [], ◌∷◌, ◌++◌,
  Bytes, codes, get_or, take, drop, find_first, ◌==◌, between, if◌then◌else◌, bit_and, bit_or,
  length,
}

abbrev pub upper_hex_digits : Bytes
upper_hex_digits = codes "0123456789ABCDEF"

-- `none` is the result -1.
unfoldable pub hex_digit_value : ℕ → Option ℕ
hex_digit_value c =
    if between b'0' b'9' c
    then some (c - b'0')
    else if between b'a' b'f' c
    then some (c - b'a' + 10)
    else if between b'A' b'F' c
    then some (c - b'A' + 10)
    else none

abbrev pub is_unreserved : ℕ → Bool
is_unreserved c =
    between b'A' b'Z' c
    || between b'a' b'z' c
    || between b'0' b'9' c
    || c == b'-'
    || c == b'.'
    || c == b'_'
    || c == b'~'

-- what one round of `percent_encode` appends
unfoldable pub encoded_char : ℕ → Bytes
encoded_char c =
    if is_unreserved c
    then c ∷ []
    else b'%' ∷ get_or upper_hex_digits (c / 16) 0 ∷ get_or upper_hex_digits (bit_and c 0x0F) 0 ∷ []

unfoldable pub percent_encode : Bytes → Bytes
percent_encode [] = []
percent_encode (c ∷ s) = encoded_char c ++ percent_encode s

-- The loop of `percent_encode_purl_namespace` on the text from `segment_start` on. A round takes at
-- least one byte, or is the last.
namespace_loop : ℕ → Bytes → Bytes
namespace_loop zero s = []
namespace_loop (suc fuel) s = elim (find_first (λ x. x == b'/') s) [
  | none ↦ percent_encode s
  | some slash ↦ percent_encode (take slash s) ++ b'/' ∷ namespace_loop fuel (drop (slash + 1) s)
]

unfoldable pub percent_encode_purl_namespace : Bytes → Bytes
unfolding namespace_loop
percent_encode_purl_namespace s = namespace_loop (length s + 1) s

-- the byte that `%` and two hex digits stand for
escape_value : ℕ → ℕ → Option ℕ
escape_value h l = elim (hex_digit_value h) [
  | none ↦ none
  | some high ↦ elim (hex_digit_value l) [ none ↦ none | some low ↦ some (bit_or (high * 16) low) ]
]

-- The loop of `percent_decode` on the text from `position` on: within two bytes of the end there is
-- no room for an escape.
unfoldable pub percent_decode : Bytes → Bytes
unfolding escape_value
percent_decode [] = []
percent_decode (c ∷ []) = c ∷ []
percent_decode (c ∷ h ∷ []) = c ∷ percent_decode (h ∷ [])
percent_decode (c ∷ h ∷ l ∷ s) = elim (c == b'%') [
  | false ↦ c ∷ percent_decode (h ∷ l ∷ s)
  | true ↦ elim (escape_value h l) [
    | none ↦ c ∷ percent_decode (h ∷ l ∷ s)
    | some d ↦ d ∷ percent_decode s
  ]
]
