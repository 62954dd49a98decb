-- ===== src/Core/JsonUtils.antt =====
-- src/core/json_utils.cpp: what the program tests of a JSON text before a parser reads it.
pub mod TraceDepth
use bomwerk.Prelude.{
  ℕ, ℤ, pos, negsuc, increment, decrement, Bool, true, false, ◌&&◌, ◌||◌, [], ◌∷◌, Bytes, length,
  drop, starts_with, ltb, ◌==◌, if◌then◌else◌,
}

unfoldable pub without_utf8_bom : Bytes → Bytes
without_utf8_bom bytes =
    let bom = 0xEF ∷ 0xBB ∷ 0xBF ∷ [] in if starts_with bytes bom then drop 3 bytes else bytes

-- The variables of the loop. An int holds the depth of a text below 2 GB.
pub record Scan : Type 0 where
  pub current_depth : ℤ
  pub inside_string : Bool
  pub previous_was_escape : Bool

unfoldable pub opens : ℕ → Bool
opens c = c == b'{' || c == b'['

unfoldable pub closes : ℕ → Bool
closes c = c == b'}' || c == b']'

unfoldable pub next_inside : Scan → ℕ → Scan
next_inside scan c =
    if scan.previous_was_escape
    then record scan { previous_was_escape = false }
    else if c == b'\\'
    then record scan { previous_was_escape = true }
    else if c == b'"'
    then record scan { inside_string = false }
    else scan

unfoldable pub next_outside : Scan → ℕ → Scan
unfolding opens closes
next_outside scan c =
    if c == b'"'
    then record scan { inside_string = true }
    else if opens c
    then record scan { current_depth = increment scan.current_depth }
    else if closes c
    then record scan { current_depth = decrement scan.current_depth }
    else scan

abbrev above : ℤ → ℕ → Bool
above (pos n) maximum_depth = ltb maximum_depth n
above (negsuc n) maximum_depth = false

-- The loop; a bracket that opens past the maximum ends it.
unfoldable pub exceeds_from : ℕ → Scan → Bytes → Bool
unfolding next_inside next_outside opens
exceeds_from maximum_depth scan [] = false
exceeds_from maximum_depth scan (c ∷ bytes) = elim scan.inside_string [
  | true ↦ exceeds_from maximum_depth (next_inside scan c) bytes
  | false ↦
      let next = next_outside scan c in
      elim (opens c && above next.current_depth maximum_depth) [
        | true ↦ true
        | false ↦ exceeds_from maximum_depth next bytes
      ]
]

unfoldable pub exceeds_json_nesting_depth : Bytes → ℕ → Bool
unfolding exceeds_from
exceeds_json_nesting_depth bytes maximum_depth =
    exceeds_from maximum_depth
      (record { current_depth = pos 0; inside_string = false; previous_was_escape = false }) bytes
