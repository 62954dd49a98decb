-- ===== src/Observe/TraceLine/Utf8.antt =====
-- `valid_utf8_sequence_length` of src/observe/trace_line.cpp on well-formed text.
use bomwerk.Prelude.{
  ℕ, ◌≤◌, ◌<◌, ◌≡◌, refl, true, false, ◌&&◌, [], ◌∷◌, arith, Bytes, ltb, leb, ◌==◌, between,
  holds_below, holds_below_lem, if◌then◌else◌,
}
use bomwerk.Observe.TraceLine.{
  is_utf8_continuation, two_byte_length, three_byte_length, four_byte_length,
  valid_utf8_sequence_length,
}

abbrev pub IsTail : ℕ → Type 0
IsTail a = (0x80 ≤ a) × (a ≤ 0xBF)

-- The well-formed sequences of bytes, as the Unicode standard lists them.
pub data IsUtf8 : Bytes → Type 0 where
  finish : IsUtf8 []
  one : (c : ℕ) (s : Bytes) → c < 0x80 → IsUtf8 s → IsUtf8 (c ∷ s)
  two : (c a : ℕ) (s : Bytes) → 0xC2 ≤ c → c ≤ 0xDF → IsTail a → IsUtf8 s → IsUtf8 (c ∷ a ∷ s)
  three :
      (c a b : ℕ) (s : Bytes)
      → 0xE0 ≤ c
      → c ≤ 0xEF
      → IsTail a
      → IsTail b
      → (c ≡ 0xE0 → 0xA0 ≤ a)
      → (c ≡ 0xED → a ≤ 0x9F)
      → IsUtf8 s
      → IsUtf8 (c ∷ a ∷ b ∷ s)
  four :
      (c a b d : ℕ) (s : Bytes)
      → 0xF0 ≤ c
      → c ≤ 0xF4
      → IsTail a
      → IsTail b
      → IsTail d
      → (c ≡ 0xF0 → 0x90 ≤ a)
      → (c ≡ 0xF4 → a ≤ 0x8F)
      → IsUtf8 s
      → IsUtf8 (c ∷ a ∷ b ∷ d ∷ s)

tail_table :
    holds_below 256 (λ a. if between 0x80 0xBF a then is_utf8_continuation a else true) ≡ true
unfolding holds_below is_utf8_continuation
tail_table = refl

tail_continues : (a : ℕ) → IsTail a → is_utf8_continuation a ≡ true
tail_continues a (lo, hi) =
    let inside : between 0x80 0xBF a ≡ true = ground arith in
    let test =
      holds_below_lem 256 (λ x. if between 0x80 0xBF x then is_utf8_continuation x else true) a
        tail_table (omega arith) in
    ground arith

pub two_length :
    (c a : ℕ) (s : Bytes)
    → 0xC2 ≤ c
    → c ≤ 0xDF
    → IsTail a
    → valid_utf8_sequence_length (c ∷ a ∷ s) ≡ 2
unfolding valid_utf8_sequence_length two_byte_length
two_length c a s lo hi ha =
    let lead : between 0xC2 0xDF c ≡ true = ground arith in rw (lead, tail_continues a ha) refl

pub three_length :
    (c a b : ℕ) (s : Bytes)
    → 0xE0 ≤ c
    → c ≤ 0xEF
    → IsTail a
    → IsTail b
    → (c ≡ 0xE0 → 0xA0 ≤ a)
    → (c ≡ 0xED → a ≤ 0x9F)
    → valid_utf8_sequence_length (c ∷ a ∷ b ∷ s) ≡ 3
unfolding valid_utf8_sequence_length three_byte_length
three_length c a b s lo hi ha hb e0 ed =
    let not_two : between 0xC2 0xDF c ≡ false = ground arith in
    let lead : between 0xE0 0xEF c ≡ true = ground arith in
    let shortest : (c == 0xE0 && ltb a 0xA0) ≡ false = ground arith in
    let no_surrogate : (c == 0xED && leb 0xA0 a) ≡ false = ground arith in
    rw (not_two, lead, tail_continues a ha, tail_continues b hb, shortest, no_surrogate) refl

pub four_length :
    (c a b d : ℕ) (s : Bytes)
    → 0xF0 ≤ c
    → c ≤ 0xF4
    → IsTail a
    → IsTail b
    → IsTail d
    → (c ≡ 0xF0 → 0x90 ≤ a)
    → (c ≡ 0xF4 → a ≤ 0x8F)
    → valid_utf8_sequence_length (c ∷ a ∷ b ∷ d ∷ s) ≡ 4
unfolding valid_utf8_sequence_length four_byte_length
four_length c a b d s lo hi ha hb hd f0 f4 =
    let not_two : between 0xC2 0xDF c ≡ false = ground arith in
    let not_three : between 0xE0 0xEF c ≡ false = ground arith in
    let lead : between 0xF0 0xF4 c ≡ true = ground arith in
    let shortest : (c == 0xF0 && ltb a 0x90) ≡ false = ground arith in
    let in_range : (c == 0xF4 && leb 0x90 a) ≡ false = ground arith in
    rw
      (
        not_two,
        not_three,
        lead,
        tail_continues a ha,
        tail_continues b hb,
        tail_continues d hd,
        shortest,
        in_range,
      )
      refl
