-- ===== src/Core/Base64/Letters.antt =====
-- The symbols of src/core/base64.cpp: what a group of bytes is written as, and what they stand for.
use native.Mathlib.Nat.{add-zero}
use bomwerk.Prelude.{
  ℕ, ◌+◌, ◌*◌, ◌/◌, ◌%◌, ◌^◌, ◌<◌, ◌≡◌, refl, ap, sym, ◌∙◌, Bool, true, false, not, Option, none,
  some, [], ◌∷◌, arith, Bytes, IsByte, get_or, ◌==◌, ==_iff, if◌then◌else◌, bit_or, bit_and_0x3F,
  bit_or_disjoint, holds_below, holds_below_lem, find_first,
}
use bomwerk.Core.Base64.{
  alphabet, symbol_at, group_of, base64_encode, base64url_symbol_value, first_byte, second_byte,
  third_byte,
}

-- The URL spelling of a symbol of the standard alphabet.
abbrev pub url_symbol : ℕ → ℕ
url_symbol c = if c == b'+' then b'-' else if c == b'/' then b'_' else c

-- Standard base64 in the URL alphabet, up to its padding.
unfoldable pub unpadded_url : Bytes → Bytes
unpadded_url [] = []
unpadded_url (c ∷ s) = if c == b'=' then [] else url_symbol c ∷ unpadded_url s

abbrev value_or : Option ℕ → ℕ
value_or none = 64
value_or (some n) = n

value_table :
    holds_below 64 (λ n. value_or (base64url_symbol_value (url_symbol (get_or alphabet n 0))) == n)
    ≡ true
unfolding holds_below base64url_symbol_value find_first
value_table = refl

below_64 : (o : Option ℕ) (n : ℕ) → n < 64 → value_or o ≡ n → o ≡ some n
below_64 none n h e = absurd (omega arith)
below_64 (some m) n h e = ap some e

symbol_value : (n : ℕ) → n < 64 → base64url_symbol_value (url_symbol (get_or alphabet n 0)) ≡ some n
symbol_value n h = below_64 _ n h (
    (==_iff _ n).0 (
      holds_below_lem 64
        (λ n. value_or (base64url_symbol_value (url_symbol (get_or alphabet n 0))) == n) n
        value_table h))

not_padding_table : holds_below 64 (λ n. not (get_or alphabet n 0 == b'=')) ≡ true
unfolding holds_below
not_padding_table = refl

not_padding : (n : ℕ) → n < 64 → (get_or alphabet n 0 == b'=') ≡ false
not_padding n h =
    not_true _ (holds_below_lem 64 (λ n. not (get_or alphabet n 0 == b'=')) n not_padding_table h)
  where
    not_true : (b : Bool) → not b ≡ true → b ≡ false
    not_true true e = sym e
    not_true false e = refl

unpadded_symbol :
    (n : ℕ) (s : Bytes)
    → n < 64
    → unpadded_url (get_or alphabet n 0 ∷ s) ≡ url_symbol (get_or alphabet n 0) ∷ unpadded_url s
unfolding unpadded_url
unpadded_symbol n s h = rw (not_padding n h)

unpadded_padding : (s : Bytes) → unpadded_url (b'=' ∷ s) ≡ []
unfolding unpadded_url
unpadded_padding s = refl

abbrev pub letter : ℕ → ℕ
letter n = get_or alphabet n 0

-- The symbol of the URL alphabet for six bits.
unfoldable pub url_letter : ℕ → ℕ
url_letter n = url_symbol (letter n)

group_of_sum : (a b c : ℕ) → IsByte b → IsByte c → group_of a b c ≡ a * 65536 + b * 256 + c
unfolding group_of
group_of_sum a b c hb hc =
    let upper : bit_or (a * 2 ^ 16) (b * 2 ^ 8) ≡ a * 2 ^ 16 + b * 2 ^ 8 =
      bit_or_disjoint 16 a (b * 2 ^ 8) (omega arith) in
    let joined : a * 2 ^ 16 + b * 2 ^ 8 ≡ (a * 256 + b) * 2 ^ 8 = omega arith in
    ap (λ t. bit_or t c) (upper ∙ joined) ∙ bit_or_disjoint 8 (a * 256 + b) c hc ∙ omega arith

two_sum : (a b : ℕ) → IsByte b → bit_or (a * 2 ^ 16) (b * 2 ^ 8) ≡ a * 65536 + b * 256 + 0
two_sum a b hb = bit_or_disjoint 16 a (b * 2 ^ 8) (omega arith) ∙ omega arith

-- The four symbols of a group of three bytes.
module _ (g a b c : ℕ) (sum : g ≡ a * 65536 + b * 256 + c) (ha : IsByte a) (hb : IsByte b)
    (hc : IsByte c) where
  symbol_18 : symbol_at g 18 ≡ letter (a / 4)
  unfolding symbol_at
  symbol_18 =
      let e : g / 2 ^ 18 % 64 ≡ a / 4 = omega arith in rw (bit_and_0x3F (g / 2 ^ 18)) (ap letter e)

  symbol_12 : symbol_at g 12 ≡ letter (a % 4 * 16 + b / 16)
  unfolding symbol_at
  symbol_12 =
      let e : g / 2 ^ 12 % 64 ≡ a % 4 * 16 + b / 16 = omega arith in
      rw (bit_and_0x3F (g / 2 ^ 12)) (ap letter e)

  symbol_6 : symbol_at g 6 ≡ letter (b % 16 * 4 + c / 64)
  unfolding symbol_at
  symbol_6 =
      let e : g / 2 ^ 6 % 64 ≡ b % 16 * 4 + c / 64 = omega arith in
      rw (bit_and_0x3F (g / 2 ^ 6)) (ap letter e)

  symbol_0 : symbol_at g 0 ≡ letter (c % 64)
  unfolding symbol_at
  symbol_0 =
      let e : g / 2 ^ 0 % 64 ≡ c % 64 = omega arith in rw (bit_and_0x3F (g / 2 ^ 0)) (ap letter e)

pub unpadded_one :
    (a : ℕ)
    → IsByte a
    → unpadded_url (base64_encode (a ∷ [])) ≡ url_letter (a / 4) ∷ url_letter (a % 4 * 16) ∷ []
unfolding url_letter base64_encode
unpadded_one a ha =
    let sum : a * 2 ^ 16 ≡ a * 65536 + 0 * 256 + 0 = omega arith in
    rw
      (
        symbol_18 (a * 2 ^ 16) a 0 0 sum ha (omega arith) (omega arith),
        symbol_12 (a * 2 ^ 16) a 0 0 sum ha (omega arith) (omega arith),
        unpadded_symbol (a / 4) _ (omega arith),
        unpadded_symbol (a % 4 * 16 + 0 / 16) _ (omega arith),
      )
      (rw (unpadded_padding (b'=' ∷ []), add-zero (a % 4 * 16)))

pub unpadded_two :
    (a b : ℕ)
    → IsByte a
    → IsByte b
    → unpadded_url (base64_encode (a ∷ b ∷ []))
      ≡ url_letter (a / 4) ∷ url_letter (a % 4 * 16 + b / 16) ∷ url_letter (b % 16 * 4) ∷ []
unfolding url_letter base64_encode
unpadded_two a b ha hb =
    let g = bit_or (a * 2 ^ 16) (b * 2 ^ 8) in
    let sum = two_sum a b hb in
    rw
      (
        symbol_18 g a b 0 sum ha hb (omega arith),
        symbol_12 g a b 0 sum ha hb (omega arith),
        symbol_6 g a b 0 sum ha hb (omega arith),
        unpadded_symbol (a / 4) _ (omega arith),
        unpadded_symbol (a % 4 * 16 + b / 16) _ (omega arith),
        unpadded_symbol (b % 16 * 4 + 0 / 64) _ (omega arith),
      )
      (rw (unpadded_padding [], add-zero (b % 16 * 4)))

pub unpadded_three :
    (a b c : ℕ) (s : Bytes)
    → IsByte a
    → IsByte b
    → IsByte c
    → unpadded_url (base64_encode (a ∷ b ∷ c ∷ s))
      ≡ url_letter (a / 4)
        ∷ url_letter (a % 4 * 16 + b / 16)
        ∷ url_letter (b % 16 * 4 + c / 64)
        ∷ url_letter (c % 64)
        ∷ unpadded_url (base64_encode s)
unfolding url_letter base64_encode
unpadded_three a b c s ha hb hc =
    let g = group_of a b c in
    let sum = group_of_sum a b c hb hc in
    rw (
      symbol_18 g a b c sum ha hb hc,
      symbol_12 g a b c sum ha hb hc,
      symbol_6 g a b c sum ha hb hc,
      symbol_0 g a b c sum ha hb hc,
      unpadded_symbol (a / 4) _ (omega arith),
      unpadded_symbol (a % 4 * 16 + b / 16) _ (omega arith),
      unpadded_symbol (b % 16 * 4 + c / 64) _ (omega arith),
      unpadded_symbol (c % 64) _ (omega arith),
    )

pub decode_letter : (n : ℕ) → n < 64 → base64url_symbol_value (url_letter n) ≡ some n
unfolding url_letter
decode_letter = symbol_value

module _ (v w : ℕ) (hv : v < 64) (hw : w < 64) where
  pub first_byte_sum : first_byte v w ≡ v * 4 + w / 16
  unfolding first_byte
  first_byte_sum = omega (arith, bit_or_disjoint 2 v (w / 2 ^ 4) (omega arith))

  pub second_byte_sum : second_byte v w ≡ v % 16 * 16 + w / 4
  unfolding second_byte
  second_byte_sum = omega (arith, bit_or_disjoint 4 v (w / 2 ^ 2) (omega arith))

  pub third_byte_sum : third_byte v w ≡ v % 4 * 64 + w
  unfolding third_byte
  third_byte_sum = omega (arith, bit_or_disjoint 6 v w (omega arith))
