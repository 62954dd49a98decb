-- ===== src/Core/Coverage.antt =====
-- src/core/match_coverage.cpp: which components a purl-driven feed can look up at all.
pub mod Summary
use bomwerk.Prelude.{
  ℕ, suc, ◌+◌, ◌-◌, Bool, not, List, [], ◌∷◌, Bytes, codes, equal, any_of, is_empty, length,
  starts_with, if◌then◌else◌,
}
use bomwerk.Core.Text.{is_hex_object_id}
use bomwerk.Core.Purl.{purl_identity_part, purl_version_of, purl_type_of}
use bomwerk.Core.Model.{Component}

pub data MatchCoverage : Type 0 where
  matched unmapped_purl_type unversioned_purl no_identifier : MatchCoverage

abbrev pub unmapped_purl_types : List Bytes
unmapped_purl_types = codes "conan" ∷ codes "vcpkg" ∷ codes "generic" ∷ []

unfoldable pub classify_match_coverage : Bytes → MatchCoverage
classify_match_coverage purl =
    let identity_part = purl_identity_part purl in
    if not (starts_with identity_part (codes "pkg:"))
    then no_identifier
    else let version = purl_version_of identity_part in
      if is_empty version
      then unversioned_purl
      else if is_hex_object_id version
      then matched
      else if any_of (λ unmapped_type. equal (purl_type_of purl) unmapped_type) unmapped_purl_types
      then unmapped_purl_type
      else matched

pub record MatchCoverageSummary : Type 0 where
  pub total : ℕ
  pub matchable : ℕ
  pub unmapped : ℕ
  pub unversioned : ℕ
  pub unidentified : ℕ

-- the switch of `summarize_match_coverage`
unfoldable pub count_coverage : MatchCoverage → MatchCoverageSummary → MatchCoverageSummary
count_coverage matched summary = summary
count_coverage unmapped_purl_type summary = record summary { unmapped = summary.unmapped + 1 }
count_coverage unversioned_purl summary = record summary { unversioned = summary.unversioned + 1 }
count_coverage no_identifier summary = record summary { unidentified = summary.unidentified + 1 }

unfoldable pub count_components : MatchCoverageSummary → List Component → MatchCoverageSummary
count_components summary [] = summary
count_components summary (c ∷ cs) =
    count_components (count_coverage (classify_match_coverage c.purl) summary) cs

unfoldable pub summarize_match_coverage : List Component → MatchCoverageSummary
summarize_match_coverage components =
    let counted =
      count_components
        (record {
          total = length components;
          matchable = 0;
          unmapped = 0;
          unversioned = 0;
          unidentified = 0;
        })
        components in
    record counted {
      matchable = counted.total - counted.unmapped - counted.unversioned - counted.unidentified;
    }
