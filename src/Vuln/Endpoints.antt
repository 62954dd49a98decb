-- ===== src/Vuln/Endpoints.antt =====
-- src/vuln/endpoints.hpp and src/vuln/endpoints.cpp: the addresses that the program may contact.
pub mod Subpath
pub mod Allowed
use bomwerk.Prelude.{
  ℕ, zero, suc, ◌+◌, Bool, true, false, not, ◌&&◌, ◌||◌, Option, none, some, List, [], ◌∷◌, ◌++◌,
  Bytes, codes, equal, starts_with, is_empty, find_first, length, take, drop, get_or, ltb, between,
  ◌==◌, all_of, any_of, if◌then◌else◌,
}

pub record FeedEndpoint : Type 0 where
  pub name : Bytes
  pub url : Bytes
  pub purpose : Bytes
  pub allows_subpaths : Bool

abbrev pub feed_endpoints : List FeedEndpoint
feed_endpoints =
    record {
      name = codes "OSV querybatch";
      url = codes "https://api.osv.dev/v1/querybatch";
      purpose = codes "batched advisory detection for components with an OSV-supported ecosystem";
      allows_subpaths = false;
    }
    ∷ record {
      name = codes "OSV query";
      url = codes "https://api.osv.dev/v1/query";
      purpose =
          codes
            "full advisory records (CVSS severity) for a component already known to be affected";
      allows_subpaths = false;
    }
    ∷ record {
      name = codes "NVD CVE API 2.0";
      url = codes "https://services.nvd.nist.gov/rest/json/cves/2.0";
      purpose =
          codes "CPE-based advisory lookup for Conan/vcpkg/generic components OSV cannot match "
          ++ codes "(--cpe-fallback only)";
      allows_subpaths = false;
    }
    ∷ record {
      name = codes "crates.io crate version API";
      url = codes "https://crates.io/api/v1/crates/";
      purpose =
          codes "declared license for an exact Cargo package version (--license-fallback only)";
      allows_subpaths = true;
    }
    ∷ record {
      name = codes "PyPI project version API";
      url = codes "https://pypi.org/pypi/";
      purpose =
          codes "declared license metadata for an exact Python package version "
          ++ codes "(--license-fallback only)";
      allows_subpaths = true;
    }
    ∷ record {
      name = codes "RubyGems version API";
      url = codes "https://rubygems.org/api/v2/rubygems/";
      purpose = codes "declared licenses for an exact gem version (--license-fallback only)";
      allows_subpaths = true;
    }
    ∷ []

abbrev pub is_separator : ℕ → Bool
is_separator c = c == b'/'

abbrev pub is_allowed : ℕ → Bool
is_allowed c =
    between b'a' b'z' c
    || (between b'0' b'9' c || (c == b'.' || (c == b'_' || (c == b'+' || c == b'-'))))

-- What a round of the loop asks of the segment in front.
unfoldable pub is_safe_segment : Bytes → Bool
is_safe_segment segment =
    not (is_empty segment)
    && (not (equal segment (codes "."))
        && (not (equal segment (codes "..")) && all_of is_allowed segment))

-- The loop of `is_safe_registry_subpath`, which a path that has run out leaves with `false`.
unfoldable pub safe_segments : ℕ → Bytes → Bool
safe_segments zero subpath = false
safe_segments (suc fuel) [] = false
safe_segments (suc fuel) (x ∷ subpath) = elim (find_first is_separator (x ∷ subpath)) [
  | none ↦ is_safe_segment (x ∷ subpath)
  | some separator ↦ elim (is_safe_segment (take separator (x ∷ subpath))) [
    | true ↦ safe_segments fuel (drop (separator + 1) (x ∷ subpath))
    | false ↦ false
  ]
]

unfoldable pub is_safe_registry_subpath : Bytes → Bool
is_safe_registry_subpath subpath = safe_segments (length subpath + 1) subpath

unfoldable pub register_feed_endpoints : List FeedEndpoint → List FeedEndpoint → List FeedEndpoint
register_feed_endpoints storage endpoints = storage ++ endpoints

-- The `matches` of `is_allowlisted_feed_url`.
unfoldable pub matches : Bytes → FeedEndpoint → Bool
matches url endpoint =
    if equal url endpoint.url
    then true
    else if endpoint.allows_subpaths
    then starts_with url endpoint.url && is_safe_registry_subpath (drop (length endpoint.url) url)
    else ltb (length endpoint.url) (length url)
      && (starts_with url endpoint.url && get_or url (length endpoint.url) 0 == b'?')

-- `storage` holds what has been registered.
unfoldable pub is_allowlisted_feed_url : List FeedEndpoint → Bytes → Bool
is_allowlisted_feed_url storage url =
    if any_of (matches url) feed_endpoints then true else any_of (matches url) storage
