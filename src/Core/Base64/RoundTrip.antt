-- ===== src/Core/Base64/RoundTrip.antt =====
-- `base64_encode` and `base64url_decode` of src/core/base64.cpp together.
use bomwerk.Prelude.{
  ℕ, ◌+◌, ◌*◌, ◌/◌, ◌%◌, ◌≡◌, refl, false, some, [], ◌∷◌, arith, Bytes, IsByte, All, length, ◌==◌,
  bit_and_0x0F, bit_and_0x03,
}
use bomwerk.Core.Base64.{
  base64_encode, append_to, tail_of_two, tail_of_three, group_bytes, decode_from, base64url_decode,
}
use bomwerk.Core.Base64.Letters.{
  decode_letter, first_byte_sum, second_byte_sum, third_byte_sum, unpadded_one, unpadded_three,
  unpadded_two, unpadded_url, url_letter,
}

decode_one :
    (a : ℕ)
    → IsByte a
    → decode_from (url_letter (a / 4) ∷ url_letter (a % 4 * 16) ∷ []) ≡ some (a ∷ [])
unfolding decode_from tail_of_two
decode_one a ha = ground (
  arith,
  decode_letter (a / 4) (omega arith),
  decode_letter (a % 4 * 16) (omega arith),
  bit_and_0x0F (a % 4 * 16),
  first_byte_sum (a / 4) (a % 4 * 16) (omega arith) (omega arith),
)

decode_two :
    (a b : ℕ)
    → IsByte a
    → IsByte b
    → decode_from
        (url_letter (a / 4) ∷ url_letter (a % 4 * 16 + b / 16) ∷ url_letter (b % 16 * 4) ∷ [])
      ≡ some (a ∷ b ∷ [])
unfolding decode_from tail_of_three
decode_two a b ha hb = ground (
  arith,
  decode_letter (a / 4) (omega arith),
  decode_letter (a % 4 * 16 + b / 16) (omega arith),
  decode_letter (b % 16 * 4) (omega arith),
  bit_and_0x03 (b % 16 * 4),
  first_byte_sum (a / 4) (a % 4 * 16 + b / 16) (omega arith) (omega arith),
  second_byte_sum (a % 4 * 16 + b / 16) (b % 16 * 4) (omega arith) (omega arith),
)

decode_three :
    (a b c : ℕ) (s : Bytes)
    → IsByte a
    → IsByte b
    → IsByte c
    → decode_from (
        url_letter (a / 4)
        ∷ url_letter (a % 4 * 16 + b / 16)
        ∷ url_letter (b % 16 * 4 + c / 64)
        ∷ url_letter (c % 64)
        ∷ s)
      ≡ append_to (a ∷ b ∷ c ∷ []) (decode_from s)
unfolding decode_from group_bytes
decode_three a b c s ha hb hc = ground (
  arith,
  decode_letter (a / 4) (omega arith),
  decode_letter (a % 4 * 16 + b / 16) (omega arith),
  decode_letter (b % 16 * 4 + c / 64) (omega arith),
  decode_letter (c % 64) (omega arith),
  first_byte_sum (a / 4) (a % 4 * 16 + b / 16) (omega arith) (omega arith),
  second_byte_sum (a % 4 * 16 + b / 16) (b % 16 * 4 + c / 64) (omega arith) (omega arith),
  third_byte_sum (b % 16 * 4 + c / 64) (c % 64) (omega arith) (omega arith),
)

decode_encoded : (s : Bytes) → All IsByte s → decode_from (unpadded_url (base64_encode s)) ≡ some s
decode_encoded [] h = unfold decode_from base64_encode unpadded_url in refl
decode_encoded (a ∷ []) (ha, _) = rw (unpadded_one a ha) (decode_one a ha)
decode_encoded (a ∷ b ∷ []) (ha, (hb, _)) = rw (unpadded_two a b ha hb) (decode_two a b ha hb)
decode_encoded (a ∷ b ∷ c ∷ s) (ha, (hb, (hc, h))) =
    rw (unpadded_three a b c s ha hb hc, decode_three a b c _ ha hb hc, decode_encoded s h)

-- No encoding leaves a single symbol over.
encoded_length :
    (s : Bytes) → All IsByte s → (length (unpadded_url (base64_encode s)) % 4 == 1) ≡ false
encoded_length [] h = unfold base64_encode unpadded_url in refl
encoded_length (a ∷ []) (ha, _) = rw (unpadded_one a ha)
encoded_length (a ∷ b ∷ []) (ha, (hb, _)) = rw (unpadded_two a b ha hb)
encoded_length (a ∷ b ∷ c ∷ s) (ha, (hb, (hc, h))) =
    rw (unpadded_three a b c s ha hb hc) (ground (arith, encoded_length s h))

-- Decoding gives back every text of bytes from its standard encoding, spelled in the URL alphabet
-- without padding.
pub base64url_decode-base64_encode :
    (s : Bytes) → All IsByte s → base64url_decode (unpadded_url (base64_encode s)) ≡ some s
unfolding base64url_decode
base64url_decode-base64_encode s h = rw (encoded_length s h) (decode_encoded s h)
