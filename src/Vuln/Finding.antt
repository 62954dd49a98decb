-- ===== src/Vuln/Finding.antt =====
-- src/vuln/finding.hpp and src/vuln/finding.cpp: ids of CVE shape, and the union of two outcomes.
pub mod Cve
pub mod Union
use bomwerk.Prelude.{
  ℕ, ◌+◌, Bool, true, false, not, ◌&&◌, List, [], ◌∷◌, ◌++◌, Bytes, codes, equal, less, starts_with,
  length, take, drop, get_or, ltb, between, ◌==◌, all_of, if◌then◌else◌, sort_by, unique_by,
}
use bomwerk.Core.Text.{to_upper_ascii, trimmed}
use bomwerk.Vuln.Delta.{PurlAdvisoryDelta}

pub data MatchProvenance : Type 0 where
  purl_exact : MatchProvenance
  cpe_fallback : MatchProvenance

abbrev pub provenance_index : MatchProvenance → ℕ
provenance_index purl_exact = 0
provenance_index cpe_fallback = 1

abbrev pub is_ascii_digit : ℕ → Bool
is_ascii_digit c = between b'0' b'9' c

unfoldable pub is_cve_shaped_id : Bytes → Bool
is_cve_shaped_id candidate =
    let remainder = drop 4 candidate in
    if not (starts_with candidate (codes "CVE-"))
    then false
    else if ltb (length remainder) (4 + 1 + 4)
    then false
    else if not (all_of is_ascii_digit (take 4 remainder))
    then false
    else if not (get_or remainder 4 0 == b'-')
    then false
    else all_of is_ascii_digit (drop 5 remainder)

unfoldable pub canonical_cve_id : Bytes → Bytes
canonical_cve_id candidate =
    let canonical = to_upper_ascii (trimmed candidate) in
    if not (is_cve_shaped_id canonical) then [] else canonical

-- The advisories of a hit are carried along; `Advisory` is the type of one.
module _ (Advisory : Type 0) where
  pub record VulnerabilityHit : Type 0 where
    pub purl : Bytes
    pub advisories : List Advisory
    pub provenance : MatchProvenance

  -- `changed_purls`, `purls_examined` and `purls_unchanged` are the fields of `deltas`.
  pub record MatchOutcome : Type 0 where
    pub hits : List VulnerabilityHit
    pub changed_purls : List PurlAdvisoryDelta
    pub purls_examined : ℕ
    pub purls_unchanged : ℕ
    pub components_without_osv_coverage : ℕ
    pub cpe_checked_purls : List Bytes

unfoldable pub orders_before :
    {Advisory : Type 0} → VulnerabilityHit Advisory → VulnerabilityHit Advisory → Bool
orders_before left right =
    if not (equal left.purl right.purl)
    then less left.purl right.purl
    else ltb (provenance_index left.provenance) (provenance_index right.provenance)

unfoldable pub delta_orders_before : PurlAdvisoryDelta → PurlAdvisoryDelta → Bool
delta_orders_before left right = less left.purl right.purl

unfoldable pub merge_outcomes :
    {Advisory : Type 0} → MatchOutcome Advisory → MatchOutcome Advisory → MatchOutcome Advisory
unfolding orders_before delta_orders_before
merge_outcomes purl_outcome cpe_outcome = record {
  hits = sort_by orders_before (purl_outcome.hits ++ cpe_outcome.hits);
  changed_purls =
      sort_by delta_orders_before (purl_outcome.changed_purls ++ cpe_outcome.changed_purls);
  purls_examined = purl_outcome.purls_examined + cpe_outcome.purls_examined;
  purls_unchanged = purl_outcome.purls_unchanged + cpe_outcome.purls_unchanged;
  components_without_osv_coverage =
      purl_outcome.components_without_osv_coverage + cpe_outcome.components_without_osv_coverage;
  cpe_checked_purls =
      unique_by equal
        (sort_by less (purl_outcome.cpe_checked_purls ++ cpe_outcome.cpe_checked_purls));
}
