-- ===== src/Observe/TraceLine/OneLine.antt =====
-- `build_trace_line` of src/observe/trace_line.cpp writes one line.
use bomwerk.Prelude.{
  ℤ, pos, negsuc, ℕ, zero, suc, ◌+◌, ◌/◌, ◌%◌, ◌≤◌, ◌<◌, ◌≡◌, refl, subst, Bool, true, false, not,
  ◌&&◌, ◌||◌, List, [], ◌∷◌, ◌++◌, append_assoc, arith, Bytes, codes, All, All-mono, All-append,
  length, take, drop, ltb, leb, leb→le, ◌==◌, between, all_of, holds_below, holds_below_lem,
  if◌then◌else◌, Bool-cases, inl, inr, zero_or_suc, decimal_digits,
}
use bomwerk.Observe.TraceLine.{
  long_text, replacement_character, is_utf8_continuation, two_byte_length, three_byte_length,
  four_byte_length, valid_utf8_sequence_length, escaped_ascii, json_body, json_string,
  further_arguments, json_arguments, build_trace_line,
}

-- not a control character
abbrev pub IsFromSpace : ℕ → Type 0
IsFromSpace c = 0x20 ≤ c

IsFromSpace-all_of : (s : Bytes) → all_of (leb 0x20) s ≡ true → All IsFromSpace s
IsFromSpace-all_of [] h = tt
IsFromSpace-all_of (c ∷ s) h = elim (Bool-cases (leb 0x20 c)) [
  | inl e ↦ (ground arith, IsFromSpace-all_of s (ground arith))
  | inr e ↦ absurd (ground arith)
]

IsFromSpace-front :
    (a b : Bytes) → all_of (leb 0x20) a ≡ true → All IsFromSpace b → All IsFromSpace (a ++ b)
IsFromSpace-front a b h k = All-append IsFromSpace a b (IsFromSpace-all_of a h) k

-- not a byte of ASCII
abbrev pub IsHigh : ℕ → Type 0
IsHigh c = 0x80 ≤ c

low_table : holds_below 128 (λ a. not (is_utf8_continuation a)) ≡ true
unfolding holds_below is_utf8_continuation
low_table = refl

not_both : (b : Bool) → b ≡ true → not b ≡ true → ⊥
not_both true h k = cc
not_both false h k = cc

continuation-IsHigh : (a : ℕ) → is_utf8_continuation a ≡ true → IsHigh a
continuation-IsHigh a h = elim (Bool-cases (leb 0x80 a)) [
  | inl e ↦ leb→le 0x80 a e
  | inr e ↦ absurd (
      not_both (is_utf8_continuation a) h
        (holds_below_lem 128 (λ x. not (is_utf8_continuation x)) a low_table (ground arith)))
]

unless_zero : (b : Bool) (n r : ℕ) → (if b then 0 else n) ≡ suc r → (b ≡ false) × (n ≡ suc r)
unless_zero true n r h = absurd (omega arith)
unless_zero false n r h = (refl, h)

if_suc : (b : Bool) (n r : ℕ) → (if b then n else 0) ≡ suc r → (b ≡ true) × (n ≡ suc r)
if_suc true n r h = (refl, h)
if_suc false n r h = absurd (omega arith)

two_byte-IsHigh : (s : Bytes) (r : ℕ) → two_byte_length s ≡ suc r → All IsHigh (take r s)
unfolding two_byte_length
two_byte-IsHigh [] r h = absurd (omega arith)
two_byte-IsHigh (a ∷ s) r h =
    let (e, k) = if_suc (is_utf8_continuation a) 2 r h in
    let count : 1 ≡ r = omega arith in
    subst (λ n. All IsHigh (take n (a ∷ s))) count (continuation-IsHigh a e, tt)

three_byte-IsHigh :
    (lead : ℕ) (s : Bytes) (r : ℕ) → three_byte_length lead s ≡ suc r → All IsHigh (take r s)
unfolding three_byte_length
three_byte-IsHigh lead [] r h = absurd (omega arith)
three_byte-IsHigh lead (a ∷ []) r h = absurd (omega arith)
three_byte-IsHigh lead (a ∷ b ∷ s) r h =
    let (e, k) = unless_zero (not (is_utf8_continuation a) || not (is_utf8_continuation b)) _ r h in
    let (f, l) = unless_zero (lead == 0xE0 && ltb a 0xA0) _ r k in
    let (g, m) = unless_zero (lead == 0xED && leb 0xA0 a) 3 r l in
    let first : is_utf8_continuation a ≡ true = ground arith in
    let second : is_utf8_continuation b ≡ true = ground arith in
    let count : 2 ≡ r = omega arith in
    subst (λ n. All IsHigh (take n (a ∷ b ∷ s))) count
      (continuation-IsHigh a first, (continuation-IsHigh b second, tt))

four_byte-IsHigh :
    (lead : ℕ) (s : Bytes) (r : ℕ) → four_byte_length lead s ≡ suc r → All IsHigh (take r s)
unfolding four_byte_length
four_byte-IsHigh lead [] r h = absurd (omega arith)
four_byte-IsHigh lead (a ∷ []) r h = absurd (omega arith)
four_byte-IsHigh lead (a ∷ b ∷ []) r h = absurd (omega arith)
four_byte-IsHigh lead (a ∷ b ∷ c ∷ s) r h =
    let (e, k) =
      unless_zero
        (not (is_utf8_continuation a)
          || not (is_utf8_continuation b)
          || not (is_utf8_continuation c))
        _ r h in
    let (f, l) = unless_zero (lead == 0xF0 && ltb a 0x90) _ r k in
    let (g, m) = unless_zero (lead == 0xF4 && leb 0x90 a) 4 r l in
    let first : is_utf8_continuation a ≡ true = ground arith in
    let second : is_utf8_continuation b ≡ true = ground arith in
    let third : is_utf8_continuation c ≡ true = ground arith in
    let count : 3 ≡ r = omega arith in
    subst (λ n. All IsHigh (take n (a ∷ b ∷ c ∷ s))) count
      (
        continuation-IsHigh a first,
        (continuation-IsHigh b second, (continuation-IsHigh c third, tt)),
      )

pub sequence-IsHigh :
    (lead : ℕ) (s : Bytes) (r : ℕ)
    → valid_utf8_sequence_length (lead ∷ s) ≡ suc r
    → All IsHigh (take r s)
unfolding valid_utf8_sequence_length
sequence-IsHigh lead s r h = elim (Bool-cases (between 0xC2 0xDF lead)) [
  | inl e ↦ two_byte-IsHigh s r (rw e at h)
  | inr e ↦ elim (Bool-cases (between 0xE0 0xEF lead)) [
    | inl f ↦ three_byte-IsHigh lead s r (rw (e, f) at h)
    | inr f ↦ four_byte-IsHigh lead s r (if_suc (between 0xF0 0xF4 lead) _ r (rw (e, f) at h)).1
  ]
]

sequence-IsFromSpace :
    (lead : ℕ) (s : Bytes) (r : ℕ)
    → valid_utf8_sequence_length (lead ∷ s) ≡ suc r
    → All IsFromSpace (take r s)
sequence-IsFromSpace lead s r h =
    All-mono IsHigh IsFromSpace (take r s) (λ c high. omega arith) (sequence-IsHigh lead s r h)

escape_table : holds_below 128 (λ c. all_of (leb 0x20) (escaped_ascii c)) ≡ true
unfolding holds_below escaped_ascii
escape_table = refl

escaped_ascii-IsFromSpace : (c : ℕ) → c < 0x80 → All IsFromSpace (escaped_ascii c)
escaped_ascii-IsFromSpace c h =
    IsFromSpace-all_of (escaped_ascii c)
      (holds_below_lem 128 (λ x. all_of (leb 0x20) (escaped_ascii x)) c escape_table h)

json_body-IsFromSpace : (fuel : ℕ) (text : Bytes) → All IsFromSpace (json_body fuel text)
unfolding json_body
json_body-IsFromSpace zero text = tt
json_body-IsFromSpace (suc fuel) [] = tt
json_body-IsFromSpace (suc fuel) (c ∷ text) = elim (Bool-cases (ltb c 0x80)) [
  | inl e ↦
      rw (e, json_body)
        (All-append IsFromSpace (escaped_ascii c) (json_body fuel text)
          (escaped_ascii-IsFromSpace c (ground arith)) (json_body-IsFromSpace fuel text))
  | inr e ↦ elim (zero_or_suc (valid_utf8_sequence_length (c ∷ text))) [
    | inl f ↦
        rw (e, f, json_body)
          (All-append IsFromSpace replacement_character (json_body fuel text)
            (IsFromSpace-all_of replacement_character refl) (json_body-IsFromSpace fuel text))
    | inr (rest, f) ↦
        let lead : IsFromSpace c = ground arith in
        rw (e, f, json_body)
          (
            lead,
            All-append IsFromSpace (take rest text) (json_body fuel (drop rest text))
                (sequence-IsFromSpace c text rest f) (json_body-IsFromSpace fuel (drop rest text)),
          )
  ]
]

json_string-IsFromSpace : (text : Bytes) → All IsFromSpace (json_string text)
unfolding json_string
json_string-IsFromSpace text = (
  omega arith,
  All-append IsFromSpace (json_body (length text) text) (b'"' ∷ [])
      (json_body-IsFromSpace (length text) text) (omega arith, tt),
)

further_arguments-IsFromSpace :
    (arguments : List Bytes) → All IsFromSpace (further_arguments arguments)
unfolding further_arguments
further_arguments-IsFromSpace [] = tt
further_arguments-IsFromSpace (a ∷ arguments) = (
  omega arith,
  All-append IsFromSpace (json_string a) (further_arguments arguments) (json_string-IsFromSpace a)
      (further_arguments-IsFromSpace arguments),
)

json_arguments-IsFromSpace : (arguments : List Bytes) → All IsFromSpace (json_arguments arguments)
unfolding json_arguments
json_arguments-IsFromSpace [] = tt
json_arguments-IsFromSpace (a ∷ arguments) =
    All-append IsFromSpace (json_string a) (further_arguments arguments) (json_string-IsFromSpace a)
      (further_arguments-IsFromSpace arguments)

decimal_digits-IsFromSpace : (fuel n : ℕ) → All IsFromSpace (decimal_digits fuel n)
unfolding decimal_digits
decimal_digits-IsFromSpace zero n = tt
decimal_digits-IsFromSpace (suc fuel) n = elim (Bool-cases (ltb n 10)) [
  | inl e ↦ rw (e, decimal_digits) (omega arith, tt)
  | inr e ↦
      rw (e, decimal_digits)
        (All-append IsFromSpace (decimal_digits fuel (n / 10)) ((b'0' + n % 10) ∷ [])
          (decimal_digits-IsFromSpace fuel (n / 10)) (omega arith, tt))
]

long_text-IsFromSpace : (n : ℤ) → All IsFromSpace (long_text n)
long_text-IsFromSpace (pos n) = decimal_digits-IsFromSpace (suc n) n
long_text-IsFromSpace (negsuc n) = (omega arith, decimal_digits-IsFromSpace (suc (n + 1)) (n + 1))

-- the line without its end
line_body : Bytes → List Bytes → Bytes → ℤ → Bytes
line_body tool_name arguments working_directory process_id =
    codes "{\"argv\":["
    ++ (json_arguments arguments
        ++ (codes "],\"cwd\":"
            ++ (json_string working_directory
                ++ (codes ",\"pid\":"
                    ++ (long_text process_id
                        ++ (codes ",\"tool\":" ++ (json_string tool_name ++ b'}' ∷ [])))))))

line_body-IsFromSpace :
    (tool_name : Bytes) (arguments : List Bytes) (working_directory : Bytes) (process_id : ℤ)
    → All IsFromSpace (line_body tool_name arguments working_directory process_id)
unfolding line_body
line_body-IsFromSpace tool_name arguments working_directory process_id =
    IsFromSpace-front (codes "{\"argv\":[") _ refl (
      All-append IsFromSpace (json_arguments arguments) _ (json_arguments-IsFromSpace arguments) (
        IsFromSpace-front (codes "],\"cwd\":") _ refl (
          All-append IsFromSpace (json_string working_directory) _
            (json_string-IsFromSpace working_directory)
            (IsFromSpace-front (codes ",\"pid\":") _ refl (
              All-append IsFromSpace (long_text process_id) _ (long_text-IsFromSpace process_id) (
                IsFromSpace-front (codes ",\"tool\":") _ refl (
                  All-append IsFromSpace (json_string tool_name) (b'}' ∷ [])
                    (json_string-IsFromSpace tool_name) (omega arith, tt))))))))

build_trace_line-line_body :
    (tool_name : Bytes) (arguments : List Bytes) (working_directory : Bytes) (process_id : ℤ)
    → build_trace_line tool_name arguments working_directory process_id
      ≡ line_body tool_name arguments working_directory process_id ++ codes "\n"
unfolding build_trace_line line_body
build_trace_line-line_body tool_name arguments working_directory process_id = simp append_assoc

-- Whatever the call of a tool holds, its record is one line: a newline at the end, and in front of it
-- no byte below 0x20, the control characters that JSON forbids in a string. DEL is not among them.
pub build_trace_line_lem :
    (tool_name : Bytes) (arguments : List Bytes) (working_directory : Bytes) (process_id : ℤ)
    → (body : Bytes) × (build_trace_line tool_name arguments working_directory process_id
        ≡ body ++ codes "\n")
      × All IsFromSpace body
build_trace_line_lem tool_name arguments working_directory process_id = (
  line_body tool_name arguments working_directory process_id,
  build_trace_line-line_body tool_name arguments working_directory process_id,
  line_body-IsFromSpace tool_name arguments working_directory process_id,
)
