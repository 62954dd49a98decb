-- ===== src/Tests/Feeds.antt =====
-- Runs on addresses of feeds and on advisory ids: src/vuln/endpoints.cpp and src/vuln/finding.cpp.
use bomwerk.Prelude.{
  ℕ, ◌≡◌, ◌↔◌, ◌⊎◌, refl, true, false, [], ◌∷◌, Bytes, codes, Any, equal, starts_with, find_first,
  find_last,
}
use bomwerk.Core.Text.{to_upper_ascii, to_upper_ascii_char, trimmed}
use bomwerk.Vuln.Endpoints.{
  feed_endpoints, is_safe_segment, safe_segments, is_safe_registry_subpath, matches,
  is_allowlisted_feed_url,
}
use bomwerk.Vuln.Endpoints.Allowed.{Reaches, is_allowlisted_feed_url_iff}
use bomwerk.Vuln.Finding.{
  is_cve_shaped_id, canonical_cve_id, MatchOutcome, cpe_fallback, merge_outcomes,
}
use bomwerk.Vuln.Finding.Union.{IsUnion, merge_outcomes-IsUnion}
use bomwerk.Vuln.Finding.Cve.{IsCve, is_cve_shaped_id_iff}

abbrev crate_url : Bytes
crate_url = codes "https://crates.io/api/v1/crates/serde/1.0.0"

is_allowlisted_feed_url_iff_example :
    (is_allowlisted_feed_url [] crate_url ≡ true)
    ↔ (Any (Reaches crate_url) feed_endpoints ⊎ Any (Reaches crate_url) [])
is_allowlisted_feed_url_iff_example = is_allowlisted_feed_url_iff [] crate_url

crate_allowed : is_allowlisted_feed_url [] crate_url ≡ true
unfolding is_allowlisted_feed_url matches is_safe_registry_subpath safe_segments is_safe_segment
    equal starts_with find_first
crate_allowed = refl

look_alike_refused :
    is_allowlisted_feed_url [] (codes "https://api.osv.dev/v1/query.attacker.example/") ≡ false
unfolding is_allowlisted_feed_url matches is_safe_registry_subpath safe_segments is_safe_segment
    equal starts_with find_first
look_alike_refused = refl

climb_refused :
    is_allowlisted_feed_url [] (codes "https://crates.io/api/v1/crates/../tokens") ≡ false
unfolding is_allowlisted_feed_url matches is_safe_registry_subpath safe_segments is_safe_segment
    equal starts_with find_first
climb_refused = refl

is_cve_shaped_id_iff_run :
    (is_cve_shaped_id (codes "CVE-2021-44228") ≡ true) ↔ IsCve (codes "CVE-2021-44228")
is_cve_shaped_id_iff_run = is_cve_shaped_id_iff (codes "CVE-2021-44228")

canonical_run : canonical_cve_id (codes " cve-2021-44228 ") ≡ codes "CVE-2021-44228"
unfolding canonical_cve_id is_cve_shaped_id to_upper_ascii to_upper_ascii_char trimmed find_first
    find_last starts_with
canonical_run = refl

abbrev cpe_hits : MatchOutcome ℕ
cpe_hits = record {
  hits =
      record { purl = codes "pkg:conan/zlib@1.2"; advisories = 7 ∷ []; provenance = cpe_fallback }
      ∷ [];
  changed_purls = [];
  purls_examined = 1;
  purls_unchanged = 1;
  components_without_osv_coverage = 1;
  cpe_checked_purls = codes "pkg:conan/zlib@1.2" ∷ [];
}

merge_outcomes-IsUnion_example : IsUnion cpe_hits cpe_hits (merge_outcomes cpe_hits cpe_hits)
merge_outcomes-IsUnion_example = merge_outcomes-IsUnion cpe_hits cpe_hits
