-- ===== src/Core/Purl.antt =====
-- src/core/purl.cpp: parsing a package url into its canonical form, and reading its parts.
pub mod Parse
pub mod Accessors
pub mod Encoded
use bomwerk.Prelude.{
  ℕ, ◌+◌, ◌-◌, Bool, true, false, not, ◌&&◌, ◌||◌, Option, none, some, List, [], ◌∷◌, ◌++◌, Bytes,
  codes, length, take, drop, substr, find_first, find_last, starts_with, is_empty, ◌==◌,
  if◌then◌else◌,
}
use bomwerk.Core.Text.{to_lower_ascii, equals_ascii_ignore_case}
use bomwerk.Core.Warnings.{Result, Warning, plain_warning, warn}
use bomwerk.Core.Warnings.Code.{purl_malformed, purl_validation_failed}

-- The whitespace of this file, two bytes more than that of `trimmed`.
abbrev pub is_purl_whitespace : ℕ → Bool
is_purl_whitespace c = c == b' ' || c == b'\t' || c == b'\n' || c == b'\r' || c == 0x0C || c == 0x0B

unfoldable pub quoted : Bytes → Bytes
quoted value = b'\'' ∷ (value ++ b'\'' ∷ [])

pub record PurlSeparators : Type 0 where
  pub scheme_separator : Option ℕ
  pub type_separator : Option ℕ
  pub has_whitespace : Bool

abbrev is_none : Option ℕ → Bool
is_none none = true
is_none (some i) = false

-- one round of `find_separators` at a byte that is not whitespace
note_separator : ℕ → ℕ → PurlSeparators → PurlSeparators
note_separator index c separators =
    if c == b':' && is_none separators.scheme_separator
    then record separators { scheme_separator = some index }
    else if c == b'/'
        && not (is_none separators.scheme_separator)
        && is_none separators.type_separator
    then record separators { type_separator = some index }
    else separators

separators_from : ℕ → PurlSeparators → Bytes → PurlSeparators
separators_from index separators [] = separators
separators_from index separators (c ∷ s) =
    let rest = separators_from (index + 1) (note_separator index c separators) s in
    if is_purl_whitespace c then record separators { has_whitespace = true } else rest

unfoldable pub find_separators : Bytes → PurlSeparators
unfolding separators_from note_separator
find_separators raw =
    separators_from 0
      (record { scheme_separator = none; type_separator = none; has_whitespace = false }) raw

-- An empty canonical text is the default value of the class.
pub record Purl : Type 0 where
  pub canonical : Bytes

abbrev pub purl_scheme : Bytes
purl_scheme = codes "pkg"

abbrev pub canonical_purl_scheme : Bytes
canonical_purl_scheme = codes "pkg:"

abbrev refused : Bytes → Result Purl
refused message = record {
  value = record { canonical = [] };
  warnings = plain_warning purl_malformed message ∷ [];
  complete = false;
}

-- the part of `Purl::parse` behind the search for separators
unfoldable pub parse_at : Bytes → Option ℕ → Option ℕ → Result Purl
parse_at raw none type_separator =
    refused (codes "purl is missing scheme separator: " ++ quoted raw)
parse_at raw (some scheme_separator) type_separator =
    if not (equals_ascii_ignore_case (take scheme_separator raw) purl_scheme)
    then refused (codes "purl scheme is not pkg: " ++ quoted raw)
    else let type_start = scheme_separator + 1 in
      let missing_type = refused (codes "purl is missing package type: " ++ quoted raw) in
      elim type_separator [
        | none ↦ missing_type
        | some slash ↦
            if slash == type_start
            then missing_type
            else if slash + 1 == length raw
            then refused (codes "purl is missing package name: " ++ quoted raw)
            else record {
              value = record {
                canonical =
                    canonical_purl_scheme
                    ++ (to_lower_ascii (substr raw type_start (slash - type_start))
                        ++ drop slash raw);
              };
              warnings = [];
              complete = true;
            }
      ]

unfoldable pub parse : Bytes → Result Purl
unfolding parse_at
parse raw =
    if is_empty raw
    then refused (codes "purl is empty")
    else let separators = find_separators raw in
      if separators.has_whitespace
      then refused (codes "purl contains whitespace: " ++ quoted raw)
      else parse_at raw separators.scheme_separator separators.type_separator

unfoldable pub purl_identity_part : Bytes → Bytes
purl_identity_part purl = elim (find_first (λ c. c == b'?' || c == b'#') purl) [
  | none ↦ purl
  | some extras_begin ↦ take extras_begin purl
]

abbrev pub before_slash : Bytes → Bytes
before_slash s = elim (find_first (λ c. c == b'/') s) [ none ↦ s | some i ↦ take i s ]

unfoldable pub purl_type_of : Bytes → Bytes
purl_type_of purl = if not (starts_with purl (codes "pkg:")) then [] else before_slash (drop 4 purl)

unfoldable pub purl_version_of : Bytes → Bytes
purl_version_of purl = elim (find_last (λ c. c == b'@') purl) [
  | none ↦ []
  | some version_marker ↦ drop (version_marker + 1) purl
]

abbrev pub without_version : Bytes → Bytes
without_version s = elim (find_last (λ c. c == b'@') s) [ none ↦ s | some i ↦ take i s ]

abbrev pub after_last_slash : Bytes → Bytes
after_last_slash s = elim (find_last (λ c. c == b'/') s) [ none ↦ s | some i ↦ drop (i + 1) s ]

unfoldable pub purl_name_of : Bytes → Bytes
purl_name_of purl =
    if not (starts_with purl canonical_purl_scheme)
    then []
    else let after_scheme = drop 4 purl in
      elim (find_first (λ c. c == b'/') after_scheme) [
        | none ↦ []
        | some type_end ↦ after_last_slash (without_version (drop (type_end + 1) after_scheme))
      ]

-- The purl, or its canonical form, and the warnings with one more where it is refused.
unfoldable pub canonicalize_purl : Bytes → Bytes → List Warning → Bytes × List Warning
canonicalize_purl purl producer_name warnings =
    let parsed = parse purl in
    if not parsed.complete
    then (
      purl,
      warnings
          ++ record (plain_warning purl_validation_failed
              (producer_name ++ codes ": produced purl failed validation: " ++ purl)) {
                ecosystem = producer_name;
              }
            ∷ [],
    )
    else (parsed.value.canonical, warnings)
