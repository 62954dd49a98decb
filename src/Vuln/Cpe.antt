-- ===== src/Vuln/Cpe.antt =====
-- src/vuln/cpe.cpp: CPE identifiers synthesized from purls.
pub mod Safe
pub mod Populate
pub mod Query
use bomwerk.Prelude.{
  ℕ, ◌/◌, Bool, true, false, not, ◌&&◌, ◌||◌, Option, none, some, List, [], ◌∷◌, ◌++◌, Bytes, codes,
  length, all_of, any_of, is_empty, starts_with, get_or, ltb, ◌==◌, between, bit_and, if◌then◌else◌,
  map,
}
use bomwerk.Core.Text.{to_lower_ascii}
use bomwerk.Core.Purl.{purl_identity_part, purl_name_of, purl_version_of}
use bomwerk.Core.Percent.{upper_hex_digits}
use bomwerk.Core.Model.{Component, synthesized_wildcard_vendor}
use bomwerk.Core.Coverage.{
  MatchCoverage, matched, unmapped_purl_type, unversioned_purl, no_identifier,
  classify_match_coverage,
}

abbrev pub max_cpe_segment_bytes : ℕ
max_cpe_segment_bytes = 128

abbrev pub is_safe_cpe_character : ℕ → Bool
is_safe_cpe_character c =
    between b'a' b'z' c || between b'0' b'9' c || (c == b'.' || c == b'_' || c == b'+' || c == b'-')

unfoldable pub validated_segment : Bytes → Option Bytes
validated_segment segment =
    if is_empty segment || ltb max_cpe_segment_bytes (length segment)
    then none
    else let lowercased = to_lower_ascii segment in
      if all_of is_safe_cpe_character lowercased then some lowercased else none

abbrev pub cpe_application_prefix : Bytes
cpe_application_prefix = codes "cpe:2.3:a:"

abbrev pub any_vendor : Bytes
any_vendor = codes "*"

abbrev pub remaining_wildcard_attributes : Bytes
remaining_wildcard_attributes = codes ":*:*:*:*:*:*:*"

match_string : Option Bytes → Option Bytes → Option Bytes
match_string none version = none
match_string (some product) none = none
match_string (some product) (some version) =
    some (cpe_application_prefix ++ (any_vendor ++ b':' ∷ (product ++ b':' ∷ version)))

unfoldable pub cpe_match_string_for : Bytes → Option Bytes
unfolding match_string
cpe_match_string_for purl =
    let identity_part = purl_identity_part purl in
    if not (starts_with identity_part (codes "pkg:"))
    then none
    else match_string (validated_segment (purl_name_of identity_part))
        (validated_segment (purl_version_of identity_part))

unfoldable pub cpe_identifier_for : Bytes → Option Bytes
cpe_identifier_for purl = elim (cpe_match_string_for purl) [
  | none ↦ none
  | some identifier ↦ some (identifier ++ remaining_wildcard_attributes)
]

pub data CpePopulationScope : Type 0 where
  unmapped_only all_versioned : CpePopulationScope

-- whether the gate of `unmapped_only` stops a component
gated : CpePopulationScope → MatchCoverage → Bool
gated all_versioned coverage = false
gated unmapped_only unmapped_purl_type = false
gated unmapped_only coverage = true

with_identifier : CpePopulationScope → Component → Option Bytes → Component
with_identifier scope component none = component
with_identifier unmapped_only component (some identifier) = record component { cpe = identifier }
with_identifier all_versioned component (some identifier) = record component {
  cpe = identifier;
  cpe_provenance = synthesized_wildcard_vendor;
}

unfoldable pub populate_component : CpePopulationScope → Component → Component
unfolding gated with_identifier
populate_component scope component =
    if not (is_empty component.cpe)
    then component
    else if gated scope (classify_match_coverage component.purl)
    then component
    else with_identifier scope component (cpe_identifier_for component.purl)

unfoldable pub populate_cpe_identifiers : List Component → CpePopulationScope → List Component
populate_cpe_identifiers components scope = map (populate_component scope) components

abbrev pub unreserved_url_characters : Bytes
unreserved_url_characters =
    codes "ABCDEFGHIJKLMNOPQRSTUVWXYZabcdefghijklmnopqrstuvwxyz0123456789-._~"

-- what one round of `percent_encode_query_value` appends
unfoldable pub encoded_query_char : ℕ → Bytes
encoded_query_char c =
    if any_of (λ x. x == c) unreserved_url_characters
    then c ∷ []
    else b'%'
      ∷ get_or upper_hex_digits (bit_and (c / 16) 0x0F) 0
      ∷ get_or upper_hex_digits (bit_and c 0x0F) 0
      ∷ []

unfoldable pub percent_encode_query_value : Bytes → Bytes
percent_encode_query_value [] = []
percent_encode_query_value (c ∷ s) = encoded_query_char c ++ percent_encode_query_value s
