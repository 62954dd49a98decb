-- ===== src/Observe/TraceLine/ReadBack.antt =====
-- The strings of src/observe/trace_line.cpp, read as JSON strings are.
use mathlib.Core.Option
use bomwerk.Prelude.{
  ℕ, zero, suc, ◌+◌, ◌-◌, ◌*◌, ◌≤◌, ◌<◌, ◌≡◌, refl, ap, ◌∙◌, Bool, true, false, not, ◌&&◌, ◌||◌,
  ◌/◌, ◌%◌, Option, none, some, [], ◌∷◌, ◌++◌, arith, Bytes, length, ltb, ◌==◌, between,
  holds_below, holds_below_lem, if◌then◌else◌,
}
use bomwerk.Observe.TraceLine.{escaped_ascii, json_body, json_string}
use bomwerk.Observe.TraceLine.Utf8.{IsUtf8, two_length, three_length, four_length}

-- between two symbols, behind a backslash, or behind \u with digits to come
pub data Reading : Type 0 where
  plain escape : Reading
  digits : ℕ → ℕ → Reading

unfoldable pub is_hex : ℕ → Bool
is_hex c = between b'0' b'9' c || (between b'a' b'f' c || between b'A' b'F' c)

unfoldable pub hex_value : ℕ → ℕ
hex_value c =
    if between b'0' b'9' c
    then c - b'0'
    else if between b'a' b'f' c
    then c - b'a' + 10
    else c - b'A' + 10

-- what stands behind a backslash, and no other byte may
unfoldable pub short_escape : ℕ → Option ℕ
short_escape c =
    if c == b'"' || (c == b'\\' || c == b'/')
    then some c
    else if c == b'b'
    then some 0x08
    else if c == b'f'
    then some 0x0C
    else if c == b'n'
    then some b'\n'
    else if c == b'r'
    then some b'\r'
    else if c == b't'
    then some b'\t'
    else none

-- the bytes of a code point; the halves of a pair are refused
unfoldable pub utf8_of : ℕ → Option Bytes
utf8_of v =
    if ltb v 0x80
    then some (v ∷ [])
    else if ltb v 0x800
    then some ((0xC0 + v / 64) ∷ (0x80 + v % 64) ∷ [])
    else if between 0xD800 0xDFFF v
    then none
    else some ((0xE0 + v / 4096) ∷ (0x80 + v / 64 % 64) ∷ (0x80 + v % 64) ∷ [])

-- the text that the body of a JSON string stands for, by the grammar of RFC 8259: no quote and no byte
-- below 0x20 stands by itself, and a backslash begins an escape of the grammar
unfoldable pub json_read : Reading → Bytes → Option Bytes
unfolding is_hex hex_value short_escape utf8_of
json_read plain [] = some []
json_read escape [] = none
json_read (digits left value) [] = none
json_read plain (c ∷ s) = elim (c == b'\\') [
  | true ↦ json_read escape s
  | false ↦ elim (c == b'"' || ltb c 0x20) [
    | true ↦ none
    | false ↦ Option.map (λ t. c ∷ t) (json_read plain s)
  ]
]
json_read escape (c ∷ s) = elim (c == b'u') [
  | true ↦ json_read (digits 4 0) s
  | false ↦ elim (short_escape c) [
    | none ↦ none
    | some d ↦ Option.map (λ t. d ∷ t) (json_read plain s)
  ]
]
json_read (digits left value) (c ∷ s) = elim (is_hex c) [
  | false ↦ none
  | true ↦ elim (left == 1) [
    | true ↦ elim (utf8_of (value * 16 + hex_value c)) [
      | none ↦ none
      | some u ↦ Option.map (λ t. u ++ t) (json_read plain s)
    ]
    | false ↦ json_read (digits (left - 1) (value * 16 + hex_value c)) s
  ]
]

same_byte : Option ℕ → ℕ → Bool
same_byte none c = false
same_byte (some d) c = d == c

abbrev hex_four : ℕ → ℕ → ℕ → ℕ → ℕ
hex_four e f g h =
    (((0 * 16 + hex_value e) * 16 + hex_value f) * 16 + hex_value g) * 16 + hex_value h

-- what an escape stands for
stands_for : Bytes → ℕ → Bool
unfolding same_byte
stands_for [] c = false
stands_for (x ∷ []) c = not (x == b'\\') && (not (x == b'"' || ltb x 0x20) && x == c)
stands_for (x ∷ d ∷ []) c = x == b'\\' && (not (d == b'u') && same_byte (short_escape d) c)
stands_for (x ∷ d ∷ e ∷ []) c = false
stands_for (x ∷ d ∷ e ∷ f ∷ []) c = false
stands_for (x ∷ d ∷ e ∷ f ∷ g ∷ []) c = false
stands_for (x ∷ d ∷ e ∷ f ∷ g ∷ h ∷ []) c =
    x == b'\\'
    && (d == b'u'
        && (is_hex e
            && (is_hex f && (is_hex g && (is_hex h && (ltb c 0x80 && hex_four e f g h == c))))))
stands_for (x ∷ d ∷ e ∷ f ∷ g ∷ h ∷ i ∷ s) c = false

escape_read_table : holds_below 128 (λ c. stands_for (escaped_ascii c) c) ≡ true
unfolding holds_below escaped_ascii stands_for short_escape hex_value is_hex
escape_read_table = refl

json_read-backslash :
    (c : ℕ) (s : Bytes) → (c == b'\\') ≡ true → json_read plain (c ∷ s) ≡ json_read escape s
unfolding json_read
json_read-backslash c s e = rw (json_read, e) refl

json_read-short :
    (d c : ℕ) (s : Bytes)
    → (d == b'u') ≡ false
    → short_escape d ≡ some c
    → json_read escape (d ∷ s) ≡ Option.map (λ t. c ∷ t) (json_read plain s)
unfolding json_read
json_read-short d c s e k = rw (json_read, e, k) refl

json_read-digit :
    (left value c : ℕ) (s : Bytes)
    → is_hex c ≡ true
    → (left == 1) ≡ false
    → json_read (digits left value) (c ∷ s)
      ≡ json_read (digits (left - 1) (value * 16 + hex_value c)) s
unfolding json_read
json_read-digit left value c s e k = rw (json_read, e, k) refl

json_read-last :
    (value c x : ℕ) (s : Bytes)
    → is_hex c ≡ true
    → utf8_of (value * 16 + hex_value c) ≡ some (x ∷ [])
    → json_read (digits 1 value) (c ∷ s) ≡ Option.map (λ t. x ∷ t) (json_read plain s)
unfolding json_read
json_read-last value c x s e k = rw (json_read, e, k) refl

ascii-utf8_of : (v c : ℕ) → v ≡ c → ltb c 0x80 ≡ true → utf8_of v ≡ some (c ∷ [])
unfolding utf8_of
ascii-utf8_of v c e low =
    let below : ltb v 0x80 ≡ true = ap (λ n. ltb n 0x80) e ∙ low in
    rw (below, utf8_of) (ap (λ n. some (n ∷ [])) e)

short_given : (o : Option ℕ) (c : ℕ) → same_byte o c ≡ true → o ≡ some c
unfolding same_byte
short_given none c h = cc
short_given (some x) c h = ap some (ground arith)

json_read-long :
    (d : ℕ) (s : Bytes) → (d == b'u') ≡ true → json_read escape (d ∷ s) ≡ json_read (digits 4 0) s
unfolding json_read
json_read-long d s e = rw (json_read, e) refl

json_read-stands_for :
    (e : Bytes) (c : ℕ) (s : Bytes)
    → stands_for e c ≡ true
    → json_read plain (e ++ s) ≡ Option.map (λ t. c ∷ t) (json_read plain s)
unfolding json_read stands_for
json_read-stands_for [] c s h = cc
json_read-stands_for (x ∷ []) c s h =
    let plain_symbol : (x == b'\\') ≡ false = ground arith in
    let allowed : (x == b'"' || ltb x 0x20) ≡ false = ground arith in
    let same : x ≡ c = ground arith in
    rw (json_read, plain_symbol, allowed)
      (ap (λ y. Option.map (λ t. y ∷ t) (json_read plain s)) same)
json_read-stands_for (x ∷ d ∷ []) c s h =
    let mark : (x == b'\\') ≡ true = ground arith in
    let short : (d == b'u') ≡ false = ground arith in
    let same : same_byte (short_escape d) c ≡ true = ground arith in
    json_read-backslash x (d ∷ s) mark
    ∙ json_read-short d c s short (short_given (short_escape d) c same)
json_read-stands_for (x ∷ d ∷ e ∷ []) c s h = cc
json_read-stands_for (x ∷ d ∷ e ∷ f ∷ []) c s h = cc
json_read-stands_for (x ∷ d ∷ e ∷ f ∷ g ∷ []) c s h = cc
json_read-stands_for (x ∷ d ∷ e ∷ f ∷ g ∷ i ∷ []) c s h =
    let mark : (x == b'\\') ≡ true = ground arith in
    let long : (d == b'u') ≡ true = ground arith in
    let hex : (is_hex e ≡ true) × (is_hex f ≡ true) × (is_hex g ≡ true) × (is_hex i ≡ true) =
      ground arith in
    let same : hex_four e f g i ≡ c = ground arith in
    let low : ltb c 0x80 ≡ true = ground arith in
    let v = 0 * 16 + hex_value e in
    json_read-backslash x (d ∷ e ∷ f ∷ g ∷ i ∷ s) mark
    ∙ json_read-long d (e ∷ f ∷ g ∷ i ∷ s) long
    ∙ json_read-digit 4 0 e (f ∷ g ∷ i ∷ s) hex.0 refl
    ∙ json_read-digit 3 v f (g ∷ i ∷ s) hex.1 refl
    ∙ json_read-digit 2 (v * 16 + hex_value f) g (i ∷ s) hex.2 refl
    ∙ json_read-last ((v * 16 + hex_value f) * 16 + hex_value g) i c s hex.3
        (ascii-utf8_of (hex_four e f g i) c same low)
json_read-stands_for (x ∷ d ∷ e ∷ f ∷ g ∷ i ∷ j ∷ u) c s h = cc

json_read-escaped_ascii :
    (c : ℕ) (s : Bytes)
    → c < 0x80
    → json_read plain (escaped_ascii c ++ s) ≡ Option.map (λ t. c ∷ t) (json_read plain s)
json_read-escaped_ascii c s h =
    json_read-stands_for (escaped_ascii c) c s
      (holds_below_lem 128 (λ x. stands_for (escaped_ascii x) x) c escape_read_table h)

json_read-high :
    (c : ℕ) (s : Bytes)
    → 0x80 ≤ c
    → json_read plain (c ∷ s) ≡ Option.map (λ t. c ∷ t) (json_read plain s)
unfolding json_read
json_read-high c s h =
    let no_mark : (c == b'\\') ≡ false = ground arith in
    let allowed : (c == b'"' || ltb c 0x20) ≡ false = ground arith in
    rw (json_read, no_mark, allowed) refl

read_high :
    (c : ℕ) (s t : Bytes)
    → 0x80 ≤ c
    → json_read plain s ≡ some t
    → json_read plain (c ∷ s) ≡ some (c ∷ t)
read_high c s t high e = json_read-high c s high ∙ ap (Option.map (λ u. c ∷ u)) e

json_body_reads :
    (fuel : ℕ) (text : Bytes)
    → length text ≤ fuel
    → IsUtf8 text
    → json_read plain (json_body fuel text) ≡ some text
unfolding json_body json_read
json_body_reads zero text h IsUtf8.finish = refl
json_body_reads zero text h (IsUtf8.one c s low u) = absurd (omega arith)
json_body_reads zero text h (IsUtf8.two c a s lo hi ha u) = absurd (omega arith)
json_body_reads zero text h (IsUtf8.three c a b s lo hi ha hb e0 ed u) = absurd (omega arith)
json_body_reads zero text h (IsUtf8.four c a b d s lo hi ha hb hd f0 f4 u) = absurd (omega arith)
json_body_reads (suc fuel) text h IsUtf8.finish = refl
json_body_reads (suc fuel) text h (IsUtf8.one c s low u) =
    let below : ltb c 0x80 ≡ true = ground arith in
    rw (below, json_body)
      (json_read-escaped_ascii c (json_body fuel s) low
        ∙ ap (Option.map (λ t. c ∷ t)) (json_body_reads fuel s (omega arith) u))
json_body_reads (suc fuel) text h (IsUtf8.two c a s lo hi ha u) =
    let above : ltb c 0x80 ≡ false = ground arith in
    rw (above, two_length c a s lo hi ha, json_body)
      (read_high c (a ∷ json_body fuel s) (a ∷ s) (omega arith)
        (read_high a (json_body fuel s) s ha.0 (json_body_reads fuel s (omega arith) u)))
json_body_reads (suc fuel) text h (IsUtf8.three c a b s lo hi ha hb e0 ed u) =
    let above : ltb c 0x80 ≡ false = ground arith in
    rw (above, three_length c a b s lo hi ha hb e0 ed, json_body)
      (read_high c (a ∷ b ∷ json_body fuel s) (a ∷ b ∷ s) (omega arith) (
        read_high a (b ∷ json_body fuel s) (b ∷ s) ha.0
          (read_high b (json_body fuel s) s hb.0 (json_body_reads fuel s (omega arith) u))))
json_body_reads (suc fuel) text h (IsUtf8.four c a b d s lo hi ha hb hd f0 f4 u) =
    let above : ltb c 0x80 ≡ false = ground arith in
    rw (above, four_length c a b d s lo hi ha hb hd f0 f4, json_body)
      (read_high c (a ∷ b ∷ d ∷ json_body fuel s) (a ∷ b ∷ d ∷ s) (omega arith) (
        read_high a (b ∷ d ∷ json_body fuel s) (b ∷ d ∷ s) ha.0 (
          read_high b (d ∷ json_body fuel s) (d ∷ s) hb.0
            (read_high d (json_body fuel s) s hd.0 (json_body_reads fuel s (omega arith) u)))))

-- Well-formed UTF-8, whatever it holds, is written as a string between quotes, and a reader that keeps
-- to the grammar of RFC 8259 reads it back as it was: such a reader ends the string at a quote that no
-- backslash stands before, and refuses bytes below 0x20 and escapes that the grammar does not have.
pub json_string_lem :
    (text : Bytes)
    → IsUtf8 text
    → (body : Bytes) × (json_string text ≡ b'"' ∷ (body ++ b'"' ∷ []))
      × (json_read plain body ≡ some text)
unfolding json_string
json_string_lem text u =
    (json_body (length text) text, refl, json_body_reads (length text) text (omega arith) u)
