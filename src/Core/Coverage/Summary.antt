-- ===== src/Core/Coverage/Summary.antt =====
-- `summarize_match_coverage` of src/core/match_coverage.cpp against a count of each class.
use bomwerk.Prelude.{ℕ, ◌+◌, ◌≡◌, refl, List, [], ◌∷◌, arith, length, ◌==◌, if◌then◌else◌}
use bomwerk.Core.Model.{Component}
use bomwerk.Core.Coverage.{
  MatchCoverage, matched, unmapped_purl_type, unversioned_purl, no_identifier, MatchCoverageSummary,
  classify_match_coverage, count_coverage, count_components, summarize_match_coverage,
}

abbrev coverage_rank : MatchCoverage → ℕ
coverage_rank matched = 0
coverage_rank unmapped_purl_type = 1
coverage_rank unversioned_purl = 2
coverage_rank no_identifier = 3

abbrev one_if : MatchCoverage → MatchCoverage → ℕ
one_if k j = if coverage_rank k == coverage_rank j then 1 else 0

-- how many components are of the class `k`
pub count_of : MatchCoverage → List Component → ℕ
count_of k [] = 0
count_of k (c ∷ cs) = one_if k (classify_match_coverage c.purl) + count_of k cs

count_coverage_lem :
    (j : MatchCoverage) (s : MatchCoverageSummary)
    → ((count_coverage j s).total ≡ s.total)
      × ((count_coverage j s).unmapped ≡ s.unmapped + one_if unmapped_purl_type j)
      × ((count_coverage j s).unversioned ≡ s.unversioned + one_if unversioned_purl j)
      × ((count_coverage j s).unidentified ≡ s.unidentified + one_if no_identifier j)
unfolding count_coverage
count_coverage_lem matched s = (refl, omega arith, omega arith, omega arith)
count_coverage_lem unmapped_purl_type s = (refl, omega arith, omega arith, omega arith)
count_coverage_lem unversioned_purl s = (refl, omega arith, omega arith, omega arith)
count_coverage_lem no_identifier s = (refl, omega arith, omega arith, omega arith)

count_components_lem :
    (s : MatchCoverageSummary) (cs : List Component)
    → ((count_components s cs).total ≡ s.total)
      × ((count_components s cs).unmapped ≡ s.unmapped + count_of unmapped_purl_type cs)
      × ((count_components s cs).unversioned ≡ s.unversioned + count_of unversioned_purl cs)
      × ((count_components s cs).unidentified ≡ s.unidentified + count_of no_identifier cs)
unfolding count_components count_of
count_components_lem s [] = (refl, omega arith, omega arith, omega arith)
count_components_lem s (c ∷ cs) =
    let j = classify_match_coverage c.purl in
    let (t, u, v, w) = count_components_lem (count_coverage j s) cs in
    let (t2, u2, v2, w2) = count_coverage_lem j s in
    (omega arith, omega arith, omega arith, omega arith)

one_class :
    (j : MatchCoverage)
    → one_if matched j
        + one_if unmapped_purl_type j
        + one_if unversioned_purl j
        + one_if no_identifier j
      ≡ 1
one_class matched = omega arith
one_class unmapped_purl_type = omega arith
one_class unversioned_purl = omega arith
one_class no_identifier = omega arith

count_of_sum :
    (cs : List Component)
    → count_of matched cs
        + count_of unmapped_purl_type cs
        + count_of unversioned_purl cs
        + count_of no_identifier cs
      ≡ length cs
unfolding count_of
count_of_sum [] = omega arith
count_of_sum (c ∷ cs) = omega (arith, count_of_sum cs, one_class (classify_match_coverage c.purl))

-- Every count of the summary is the number of components of its class; the total is the number of
-- all components, and the subtraction that gives the matchable ones does not go below zero, so the
-- four counts add up to the total.
pub summarize_match_coverage_lem :
    (components : List Component)
    → ((summarize_match_coverage components).total ≡ length components)
      × ((summarize_match_coverage components).matchable ≡ count_of matched components)
      × ((summarize_match_coverage components).unmapped ≡ count_of unmapped_purl_type components)
      × ((summarize_match_coverage components).unversioned ≡ count_of unversioned_purl components)
      × ((summarize_match_coverage components).unidentified ≡ count_of no_identifier components)
      × ((summarize_match_coverage components).matchable
            + (summarize_match_coverage components).unmapped
            + (summarize_match_coverage components).unversioned
            + (summarize_match_coverage components).unidentified
          ≡ length components)
unfolding summarize_match_coverage
summarize_match_coverage_lem components =
    let start : MatchCoverageSummary = record {
      total = length components;
      matchable = 0;
      unmapped = 0;
      unversioned = 0;
      unidentified = 0;
    } in
    let (t, u, v, w) = count_components_lem start components in
    let s : count_of matched components
          + count_of unmapped_purl_type components
          + count_of unversioned_purl components
          + count_of no_identifier components
        ≡ length components =
      count_of_sum components in
    (t, omega arith, omega arith, omega arith, omega arith, omega arith)
