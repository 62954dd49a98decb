-- ===== src/Core/JsonUtils/TraceDepth.antt =====
-- The guard of src/core/json_utils.cpp on the lines that src/observe/trace_line.cpp writes.
use bomwerk.Prelude.{
  ℕ, zero, suc, ◌+◌, ◌/◌, ◌%◌, ◌<◌, ◌≡◌, refl, sym, ap, ◌∙◌, ℤ, pos, negsuc, Bool, true, false, not,
  List, [], ◌∷◌, ◌++◌, append_assoc, arith, inl, inr, Bytes, codes, All, length, take, drop, ltb,
  ◌==◌, Bool-cases, zero_or_suc, holds_below, holds_below_lem, decimal_digits, to_text,
}
use bomwerk.Core.JsonUtils.{
  Scan, opens, closes, next_inside, next_outside, exceeds_from, exceeds_json_nesting_depth,
}
use bomwerk.Observe.TraceLine.{
  long_text, replacement_character, valid_utf8_sequence_length, escaped_ascii, json_body,
  json_string, further_arguments, json_arguments, build_trace_line,
}
use bomwerk.Observe.TraceLine.OneLine.{IsHigh, sequence-IsHigh}

-- A text inside a string that leaves the string open and is not in the middle of an escape.
calm : Bool → Bytes → Bool
calm escaped [] = not escaped
calm true (c ∷ s) = calm false s
calm false (c ∷ s) = elim (c == b'\\') [
  | true ↦ calm true s
  | false ↦ elim (c == b'"') [ true ↦ false | false ↦ calm false s ]
]

abbrev inside : ℤ → Bool → Scan
inside d escaped = record { current_depth = d; inside_string = true; previous_was_escape = escaped }

abbrev outside : ℤ → Scan
outside d = record { current_depth = d; inside_string = false; previous_was_escape = false }

calm_slash :
    (c : ℕ) (s : Bytes) → (c == b'\\') ≡ true → calm false (c ∷ s) ≡ true → calm true s ≡ true
unfolding calm
calm_slash c s slash h = sym (rw (slash, calm)) ∙ h

calm_plain :
    (c : ℕ) (s : Bytes)
    → (c == b'\\') ≡ false
    → calm false (c ∷ s) ≡ true
    → ((c == b'"') ≡ false) × (calm false s ≡ true)
unfolding calm
calm_plain c s other h = elim (Bool-cases (c == b'"')) [
  | inl quote ↦ absurd (ground arith)
  | inr plain ↦ (plain, sym (rw (other, plain, calm)) ∙ h)
]

inside_slash :
    (m : ℕ) (d : ℤ) (c : ℕ) (s : Bytes)
    → (c == b'\\') ≡ true
    → exceeds_from m (inside d false) (c ∷ s) ≡ exceeds_from m (inside d true) s
unfolding exceeds_from next_inside
inside_slash m d c s slash = simp (slash, exceeds_from, next_inside)

inside_plain :
    (m : ℕ) (d : ℤ) (c : ℕ) (s : Bytes)
    → (c == b'\\') ≡ false
    → (c == b'"') ≡ false
    → exceeds_from m (inside d false) (c ∷ s) ≡ exceeds_from m (inside d false) s
unfolding exceeds_from next_inside
inside_plain m d c s other plain = simp (other, plain, exceeds_from, next_inside)

inside-calm :
    (m : ℕ) (d : ℤ) (escaped : Bool) (s rest : Bytes)
    → calm escaped s ≡ true
    → exceeds_from m (inside d escaped) (s ++ rest) ≡ exceeds_from m (inside d false) rest
unfolding exceeds_from calm
inside-calm m d true [] rest h = cc
inside-calm m d false [] rest h = refl
inside-calm m d true (c ∷ s) rest h = inside-calm m d false s rest h
inside-calm m d false (c ∷ s) rest h = elim (Bool-cases (c == b'\\')) [
  | inl slash ↦
      inside_slash m d c (s ++ rest) slash ∙ inside-calm m d true s rest (calm_slash c s slash h)
  | inr other ↦
      let (plain, calm_rest) = calm_plain c s other h in
      inside_plain m d c (s ++ rest) other plain ∙ inside-calm m d false s rest calm_rest
]

calm-append :
    (escaped : Bool) (a b : Bytes)
    → calm escaped a ≡ true
    → calm false b ≡ true
    → calm escaped (a ++ b) ≡ true
unfolding calm
calm-append true [] b h k = cc
calm-append false [] b h k = k
calm-append true (c ∷ a) b h k = calm-append false a b h k
calm-append false (c ∷ a) b h k = elim (Bool-cases (c == b'\\')) [
  | inl slash ↦ rw (slash, calm) (calm-append true a b (calm_slash c a slash h) k)
  | inr other ↦
      let (plain, calm_rest) = calm_plain c a other h in
      rw (other, plain, calm) (calm-append false a b calm_rest k)
]

calm_high : (s : Bytes) → All IsHigh s → calm false s ≡ true
unfolding calm
calm_high [] h = refl
calm_high (c ∷ s) (hc, h) =
    let other : (c == b'\\') ≡ false = ground arith in
    let plain : (c == b'"') ≡ false = ground arith in rw (other, plain, calm) (calm_high s h)

escape_table : holds_below 128 (λ c. calm false (escaped_ascii c)) ≡ true
unfolding holds_below escaped_ascii calm
escape_table = refl

json_body-calm : (fuel : ℕ) (text : Bytes) → calm false (json_body fuel text) ≡ true
unfolding json_body calm
json_body-calm zero text = refl
json_body-calm (suc fuel) [] = refl
json_body-calm (suc fuel) (c ∷ text) = elim (Bool-cases (ltb c 0x80)) [
  | inl low ↦
      rw (low, json_body)
        (calm-append false (escaped_ascii c) (json_body fuel text)
          (holds_below_lem 128 (λ x. calm false (escaped_ascii x)) c escape_table (ground arith))
          (json_body-calm fuel text))
  | inr high ↦ elim (zero_or_suc (valid_utf8_sequence_length (c ∷ text))) [
    | inl bad ↦
        rw (high, bad, json_body)
          (calm-append false replacement_character (json_body fuel text) refl
            (json_body-calm fuel text))
    | inr (rest, good) ↦
        let lead : IsHigh c = ground arith in
        rw (high, good, json_body)
          (calm-append false (c ∷ take rest text) (json_body fuel (drop rest text))
            (calm_high (c ∷ take rest text) (lead, sequence-IsHigh c text rest good))
            (json_body-calm fuel (drop rest text)))
  ]
]

module _ (m : ℕ) (d : ℤ) where
  enters : (s : Bytes) → exceeds_from m (outside d) (b'"' ∷ s) ≡ exceeds_from m (inside d false) s
  unfolding exceeds_from
  enters s = refl

  leaves : (s : Bytes) → exceeds_from m (inside d false) (b'"' ∷ s) ≡ exceeds_from m (outside d) s
  unfolding exceeds_from
  leaves s = refl

  comma : (s : Bytes) → exceeds_from m (outside d) (b',' ∷ s) ≡ exceeds_from m (outside d) s
  unfolding exceeds_from
  comma s = refl

  passes_string :
      (text rest : Bytes)
      → exceeds_from m (outside d) (json_string text ++ rest) ≡ exceeds_from m (outside d) rest
  unfolding json_string
  passes_string text rest =
      let body = json_body (length text) text in
      ap (λ t. exceeds_from m (outside d) (b'"' ∷ t)) (append_assoc body (b'"' ∷ []) rest)
      ∙ enters (body ++ b'"' ∷ rest)
      ∙ inside-calm m d false body (b'"' ∷ rest) (json_body-calm (length text) text)
      ∙ leaves rest

  passes_further :
      (arguments : List Bytes) (rest : Bytes)
      → exceeds_from m (outside d) (further_arguments arguments ++ rest)
        ≡ exceeds_from m (outside d) rest
  unfolding further_arguments
  passes_further [] rest = refl
  passes_further (argument ∷ arguments) rest =
      comma ((json_string argument ++ further_arguments arguments) ++ rest)
      ∙ ap (exceeds_from m (outside d))
          (append_assoc (json_string argument) (further_arguments arguments) rest)
      ∙ passes_string argument (further_arguments arguments ++ rest)
      ∙ passes_further arguments rest

  passes_arguments :
      (arguments : List Bytes) (rest : Bytes)
      → exceeds_from m (outside d) (json_arguments arguments ++ rest)
        ≡ exceeds_from m (outside d) rest
  unfolding json_arguments
  passes_arguments [] rest = refl
  passes_arguments (argument ∷ arguments) rest =
      ap (exceeds_from m (outside d))
        (append_assoc (json_string argument) (further_arguments arguments) rest)
      ∙ passes_string argument (further_arguments arguments ++ rest)
      ∙ passes_further arguments rest

  not_open : (c : ℕ) → c < b':' → opens c ≡ false
  unfolding opens
  not_open c h = ground arith

  not_close : (c : ℕ) → c < b':' → closes c ≡ false
  unfolding closes
  not_close c h = ground arith

  -- A byte of a number.
  passes_digit :
      (c : ℕ) (s : Bytes)
      → c < b':'
      → b'"' < c
      → exceeds_from m (outside d) (c ∷ s) ≡ exceeds_from m (outside d) s
  unfolding exceeds_from next_outside
  passes_digit c s h k =
      let quote : (c == b'"') ≡ false = ground arith in
      rw (not_open c h, exceeds_from) (rw (quote, not_open c h, not_close c h, next_outside))

  passes_decimal :
      (fuel n : ℕ) (rest : Bytes)
      → exceeds_from m (outside d) (decimal_digits fuel n ++ rest) ≡ exceeds_from m (outside d) rest
  unfolding decimal_digits
  passes_decimal zero n rest = refl
  passes_decimal (suc fuel) n rest = elim (Bool-cases (ltb n 10)) [
    | inl last ↦
        rw (last, decimal_digits) (passes_digit (b'0' + n) rest (ground arith) (omega arith))
    | inr more ↦
        rw (more, decimal_digits)
          (ap (exceeds_from m (outside d))
              (append_assoc (decimal_digits fuel (n / 10)) ((b'0' + n % 10) ∷ []) rest)
            ∙ passes_decimal fuel (n / 10) ((b'0' + n % 10) ∷ rest)
            ∙ passes_digit (b'0' + n % 10) rest (omega arith) (omega arith))
  ]

  passes_long :
      (n : ℤ) (rest : Bytes)
      → exceeds_from m (outside d) (long_text n ++ rest) ≡ exceeds_from m (outside d) rest
  passes_long (pos n) rest = passes_decimal (suc n) n rest
  passes_long (negsuc n) rest =
      passes_digit b'-' (to_text (n + 1) ++ rest) (omega arith) (omega arith)
      ∙ passes_decimal (suc (n + 1)) (n + 1) rest

opening :
    (rest : Bytes)
    → exceeds_from 4 (outside (pos 0)) (codes "{\"argv\":[" ++ rest)
      ≡ exceeds_from 4 (outside (pos 2)) rest
unfolding exceeds_from
opening rest = refl

arguments_end :
    (rest : Bytes)
    → exceeds_from 4 (outside (pos 2)) (codes "],\"cwd\":" ++ rest)
      ≡ exceeds_from 4 (outside (pos 1)) rest
unfolding exceeds_from
arguments_end rest = refl

pid_label :
    (rest : Bytes)
    → exceeds_from 4 (outside (pos 1)) (codes ",\"pid\":" ++ rest)
      ≡ exceeds_from 4 (outside (pos 1)) rest
unfolding exceeds_from
pid_label rest = refl

tool_label :
    (rest : Bytes)
    → exceeds_from 4 (outside (pos 1)) (codes ",\"tool\":" ++ rest)
      ≡ exceeds_from 4 (outside (pos 1)) rest
unfolding exceeds_from
tool_label rest = refl

closing : exceeds_from 4 (outside (pos 1)) (codes "}\n") ≡ false
unfolding exceeds_from
closing = refl

-- Whatever the call of a tool holds, brackets and quotes included, the line that is written for it
-- passes the guard that the reader of traces puts before its parser, a depth of four.
pub exceeds-build_trace_line :
    (tool_name : Bytes) (arguments : List Bytes) (working_directory : Bytes) (process_id : ℤ)
    → exceeds_json_nesting_depth
        (build_trace_line tool_name arguments working_directory process_id)
        4
      ≡ false
unfolding exceeds_json_nesting_depth build_trace_line
exceeds-build_trace_line tool_name arguments working_directory process_id =
    let r6 = json_string tool_name ++ codes "}\n" in
    let r5 = long_text process_id ++ (codes ",\"tool\":" ++ r6) in
    let r4 = json_string working_directory ++ (codes ",\"pid\":" ++ r5) in
    let r3 = json_arguments arguments ++ (codes "],\"cwd\":" ++ r4) in
    opening r3
    ∙ passes_arguments 4 (pos 2) arguments (codes "],\"cwd\":" ++ r4)
    ∙ arguments_end r4
    ∙ passes_string 4 (pos 1) working_directory (codes ",\"pid\":" ++ r5)
    ∙ pid_label r5
    ∙ passes_long 4 (pos 1) process_id (codes ",\"tool\":" ++ r6)
    ∙ tool_label r6
    ∙ passes_string 4 (pos 1) tool_name (codes "}\n")
    ∙ closing
