-- ===== src/Observe/TraceLine.antt =====
-- src/observe/trace_line.cpp: the JSON line that a shim writes for one call of a tool.
pub mod OneLine
pub mod Utf8
pub mod ReadBack
use bomwerk.Prelude.{
  ℕ, zero, suc, ◌+◌, ◌/◌, ℤ, pos, negsuc, Bool, true, false, not, ◌&&◌, ◌||◌, List, [], ◌∷◌, ◌++◌,
  Bytes, codes, get_or, length, take, drop, ltb, leb, ◌==◌, between, bit_and, if◌then◌else◌,
  to_text,
}

abbrev pub long_text : ℤ → Bytes
long_text (pos n) = to_text n
long_text (negsuc n) = b'-' ∷ to_text (n + 1)

abbrev pub replacement_character : Bytes
replacement_character = 0xEF ∷ 0xBF ∷ 0xBD ∷ []

abbrev pub trace_hex_digits : Bytes
trace_hex_digits = codes "0123456789abcdef"

-- what `append_unicode_escape` appends
abbrev pub unicode_escape : ℕ → Bytes
unicode_escape value =
    codes "\\u00"
    ++ (get_or trace_hex_digits (bit_and (value / 16) 0x0F) 0
        ∷ get_or trace_hex_digits (bit_and value 0x0F) 0
        ∷ [])

unfoldable pub is_utf8_continuation : ℕ → Bool
is_utf8_continuation byte = bit_and byte 0xC0 == 0x80

two_byte_length : Bytes → ℕ
two_byte_length [] = 0
two_byte_length (a ∷ s) = if is_utf8_continuation a then 2 else 0

three_byte_length : ℕ → Bytes → ℕ
three_byte_length lead [] = 0
three_byte_length lead (a ∷ []) = 0
three_byte_length lead (a ∷ b ∷ s) =
    if not (is_utf8_continuation a) || not (is_utf8_continuation b)
    then 0
    else if lead == 0xE0 && ltb a 0xA0
    then 0
    else if lead == 0xED && leb 0xA0 a
    then 0
    else 3

four_byte_length : ℕ → Bytes → ℕ
four_byte_length lead [] = 0
four_byte_length lead (a ∷ []) = 0
four_byte_length lead (a ∷ b ∷ []) = 0
four_byte_length lead (a ∷ b ∷ c ∷ s) =
    if not (is_utf8_continuation a) || not (is_utf8_continuation b) || not (is_utf8_continuation c)
    then 0
    else if lead == 0xF0 && ltb a 0x90
    then 0
    else if lead == 0xF4 && leb 0x90 a
    then 0
    else 4

-- The length of the sequence that the text starts with, on the text from the position on.
unfoldable pub valid_utf8_sequence_length : Bytes → ℕ
unfolding two_byte_length three_byte_length four_byte_length
valid_utf8_sequence_length [] = 0
valid_utf8_sequence_length (lead ∷ s) =
    if between 0xC2 0xDF lead
    then two_byte_length s
    else if between 0xE0 0xEF lead
    then three_byte_length lead s
    else if between 0xF0 0xF4 lead
    then four_byte_length lead s
    else 0

-- the switch of `append_json_string`, for a byte below 0x80
unfoldable pub escaped_ascii : ℕ → Bytes
escaped_ascii byte =
    if byte == b'"'
    then codes "\\\""
    else if byte == b'\\'
    then codes "\\\\"
    else if byte == 0x08
    then codes "\\b"
    else if byte == 0x0C
    then codes "\\f"
    else if byte == b'\n'
    then codes "\\n"
    else if byte == b'\r'
    then codes "\\r"
    else if byte == b'\t'
    then codes "\\t"
    else if ltb byte 0x20
    then unicode_escape byte
    else byte ∷ []

-- The loop of `append_json_string`, on the text from the position on. A round takes a byte at least.
unfoldable pub json_body : ℕ → Bytes → Bytes
json_body zero text = []
json_body (suc fuel) [] = []
json_body (suc fuel) (byte ∷ text) = elim (ltb byte 0x80) [
  | true ↦ escaped_ascii byte ++ json_body fuel text
  | false ↦ elim (valid_utf8_sequence_length (byte ∷ text)) [
    | zero ↦ replacement_character ++ json_body fuel text
    | suc rest ↦ byte ∷ (take rest text ++ json_body fuel (drop rest text))
  ]
]

unfoldable pub json_string : Bytes → Bytes
json_string text = b'"' ∷ (json_body (length text) text ++ b'"' ∷ [])

-- the arguments behind the first, each with its comma
unfoldable pub further_arguments : List Bytes → Bytes
further_arguments [] = []
further_arguments (argument ∷ arguments) =
    b',' ∷ (json_string argument ++ further_arguments arguments)

unfoldable pub json_arguments : List Bytes → Bytes
json_arguments [] = []
json_arguments (argument ∷ arguments) = json_string argument ++ further_arguments arguments

unfoldable pub build_trace_line : Bytes → List Bytes → Bytes → ℤ → Bytes
build_trace_line tool_name arguments working_directory process_id =
    codes "{\"argv\":["
    ++ (json_arguments arguments
        ++ (codes "],\"cwd\":"
            ++ (json_string working_directory
                ++ (codes ",\"pid\":"
                    ++ (long_text process_id
                        ++ (codes ",\"tool\":" ++ (json_string tool_name ++ codes "}\n")))))))
