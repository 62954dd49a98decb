-- ===== src/Core/Base64.antt =====
-- src/core/base64.cpp: the standard encoder and the strict decoder of the unpadded URL alphabet.
pub mod Letters
pub mod RoundTrip
pub mod Canonical
use bomwerk.Prelude.{
  ℕ, ◌*◌, ◌/◌, ◌%◌, ◌^◌, ◌&&◌, Bool, true, false, not, Option, none, some, [], ◌∷◌, ◌++◌, Bytes,
  codes, get_or, find_first, ◌==◌, if◌then◌else◌, bit_and, bit_or, length,
}

abbrev pub alphabet : Bytes
alphabet = codes "ABCDEFGHIJKLMNOPQRSTUVWXYZabcdefghijklmnopqrstuvwxyz0123456789+/"

abbrev pub url_alphabet : Bytes
url_alphabet = codes "ABCDEFGHIJKLMNOPQRSTUVWXYZabcdefghijklmnopqrstuvwxyz0123456789-_"

-- kAlphabet[(group >> shift) & 0x3F]
unfoldable pub symbol_at : ℕ → ℕ → ℕ
symbol_at group shift = get_or alphabet (bit_and (group / 2 ^ shift) 0x3F) 0

unfoldable pub group_of : ℕ → ℕ → ℕ → ℕ
group_of a b c = bit_or (bit_or (a * 2 ^ 16) (b * 2 ^ 8)) c

unfoldable pub base64_encode : Bytes → Bytes
base64_encode [] = []
base64_encode (a ∷ []) =
    let group = a * 2 ^ 16 in symbol_at group 18 ∷ symbol_at group 12 ∷ b'=' ∷ b'=' ∷ []
base64_encode (a ∷ b ∷ []) =
    let group = bit_or (a * 2 ^ 16) (b * 2 ^ 8) in
    symbol_at group 18 ∷ symbol_at group 12 ∷ symbol_at group 6 ∷ b'=' ∷ []
base64_encode (a ∷ b ∷ c ∷ s) =
    let group = group_of a b c in
    symbol_at group 18
    ∷ symbol_at group 12
    ∷ symbol_at group 6
    ∷ symbol_at group 0
    ∷ base64_encode s

-- `none` is the result -1.
unfoldable pub base64url_symbol_value : ℕ → Option ℕ
base64url_symbol_value c = find_first (λ x. x == c) url_alphabet

-- The three bytes of a group, each cast to `char`.
unfoldable pub first_byte : ℕ → ℕ → ℕ
first_byte first second = bit_or (first * 2 ^ 2) (second / 2 ^ 4) % 256

unfoldable pub second_byte : ℕ → ℕ → ℕ
second_byte second third = bit_or (second * 2 ^ 4) (third / 2 ^ 2) % 256

unfoldable pub third_byte : ℕ → ℕ → ℕ
third_byte third fourth = bit_or (third * 2 ^ 6) fourth % 256

abbrev append_to : Bytes → Option Bytes → Option Bytes
append_to front none = none
append_to front (some back) = some (front ++ back)

unfoldable pub tail_of_two : Option ℕ → Option ℕ → Option Bytes
tail_of_two none second = none
tail_of_two (some first) none = none
tail_of_two (some first) (some second) =
    if not (bit_and second 0x0F == 0) then none else some (first_byte first second ∷ [])

unfoldable pub tail_of_three : Option ℕ → Option ℕ → Option ℕ → Option Bytes
tail_of_three none second third = none
tail_of_three (some first) none third = none
tail_of_three (some first) (some second) none = none
tail_of_three (some first) (some second) (some third) =
    if not (bit_and third 0x03 == 0)
    then none
    else some (first_byte first second ∷ second_byte second third ∷ [])

unfoldable pub group_bytes : Option ℕ → Option ℕ → Option ℕ → Option ℕ → Option Bytes
group_bytes none second third fourth = none
group_bytes (some first) none third fourth = none
group_bytes (some first) (some second) none fourth = none
group_bytes (some first) (some second) (some third) none = none
group_bytes (some first) (some second) (some third) (some fourth) =
    some (first_byte first second ∷ second_byte second third ∷ third_byte third fourth ∷ [])

-- What `decoded` gains from the text from `position` on; one symbol left over adds nothing.
unfoldable pub decode_from : Bytes → Option Bytes
decode_from [] = some []
decode_from (p ∷ []) = some []
decode_from (p ∷ q ∷ []) = tail_of_two (base64url_symbol_value p) (base64url_symbol_value q)
decode_from (p ∷ q ∷ r ∷ []) =
    tail_of_three (base64url_symbol_value p) (base64url_symbol_value q) (base64url_symbol_value r)
decode_from (p ∷ q ∷ r ∷ t ∷ s) =
    elim (group_bytes (base64url_symbol_value p) (base64url_symbol_value q)
      (base64url_symbol_value r) (base64url_symbol_value t)) [
        | none ↦ none
        | some front ↦ append_to front (decode_from s)
      ]

unfoldable pub base64url_decode : Bytes → Option Bytes
base64url_decode s = if length s % 4 == 1 then none else decode_from s
