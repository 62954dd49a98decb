-- ===== src/Tests/Models.antt =====
-- Runs on components: src/core/model.cpp, src/core/match_coverage.cpp.
use mathlib.Core.List.Permᴰ
use bomwerk.Prelude.{
  ◌+◌, ◌≡◌, refl, none, [], ◌∷◌, List, codes, All, Any, IsIncreasing, length, min,
}
use bomwerk.Core.Model.{
  Component, normalize_evidence, merge_into, scope_rank, confidence_rank, highest_confidence,
  collect_components,
}
use bomwerk.Core.Model.Order.{identity_before}
use bomwerk.Core.Model.Normalize.{normalize_evidence-perm, normalize_evidence_lem, SpeaksFor}
use bomwerk.Core.Model.Merge.{lookup_component, gather, HasKeysInOrder, collect_components_lem}
use bomwerk.Core.Model.Symmetry.{merge_into_comm}
use bomwerk.Core.Model.Highest.{highest_confidence-normalize_evidence}
use bomwerk.Core.Coverage.{
  matched, unmapped_purl_type, unversioned_purl, no_identifier, summarize_match_coverage,
}
use bomwerk.Core.Coverage.Summary.{count_of, summarize_match_coverage_lem}
use bomwerk.Tests.Data.{weak_zlib, strong_zlib, zlib, zlib_again, nameless}

normalize_evidence-perm_example :
    normalize_evidence (weak_zlib ∷ strong_zlib ∷ [])
    ≡ normalize_evidence (strong_zlib ∷ weak_zlib ∷ [])
normalize_evidence-perm_example = normalize_evidence-perm (Permᴰ.swap refl refl)

normalize_evidence_lem_example :
    IsIncreasing identity_before (normalize_evidence (weak_zlib ∷ strong_zlib ∷ []))
    × All
        (λ e. Any (SpeaksFor e) (normalize_evidence (weak_zlib ∷ strong_zlib ∷ [])))
        (weak_zlib ∷ strong_zlib ∷ [])
normalize_evidence_lem_example = normalize_evidence_lem (weak_zlib ∷ strong_zlib ∷ [])

abbrev three : List Component
three = zlib ∷ nameless ∷ zlib_again ∷ []

collect_components_lem_example :
    (lookup_component (codes "pkg:conan/zlib@1.3.1") (collect_components [] three)
      ≡ gather (codes "pkg:conan/zlib@1.3.1") none three)
    × HasKeysInOrder (collect_components [] three)
collect_components_lem_example = collect_components_lem (codes "pkg:conan/zlib@1.3.1") three

merge_into_comm_example :
    ((merge_into zlib zlib_again).evidence ≡ (merge_into zlib_again zlib).evidence)
    × ((merge_into zlib zlib_again).used_in_build ≡ (merge_into zlib_again zlib).used_in_build)
    × ((merge_into zlib zlib_again).scope ≡ (merge_into zlib_again zlib).scope)
    × (scope_rank (merge_into zlib zlib_again).scope
        ≡ min (scope_rank zlib.scope) (scope_rank zlib_again.scope))
merge_into_comm_example = merge_into_comm zlib zlib_again

highest_confidence-normalize_evidence_run :
    confidence_rank
      (highest_confidence (record zlib { evidence = normalize_evidence zlib.evidence }))
    ≡ confidence_rank (highest_confidence zlib)
highest_confidence-normalize_evidence_run = highest_confidence-normalize_evidence zlib

summarize_match_coverage_lem_example :
    ((summarize_match_coverage three).total ≡ length three)
    × ((summarize_match_coverage three).matchable ≡ count_of matched three)
    × ((summarize_match_coverage three).unmapped ≡ count_of unmapped_purl_type three)
    × ((summarize_match_coverage three).unversioned ≡ count_of unversioned_purl three)
    × ((summarize_match_coverage three).unidentified ≡ count_of no_identifier three)
    × ((summarize_match_coverage three).matchable
          + (summarize_match_coverage three).unmapped
          + (summarize_match_coverage three).unversioned
          + (summarize_match_coverage three).unidentified
        ≡ length three)
summarize_match_coverage_lem_example = summarize_match_coverage_lem three
