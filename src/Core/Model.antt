-- ===== src/Core/Model.antt =====
-- src/core/model.hpp and src/core/model.cpp: components, their evidence, and the merge of components
-- with one identity. A path is the text that prints it.
pub mod Order
pub mod Normalize
pub mod Merge
pub mod Highest
pub mod Symmetry
use bomwerk.Prelude.{
  ℕ, Bool, true, false, not, ◌&&◌, ◌||◌, Option, none, some, List, [], ◌∷◌, ◌++◌, Bytes, equal,
  less, is_empty, ltb, ◌==◌, if◌then◌else◌, sort_by, unique_by,
}
use bomwerk.Core.Purl.{parse}

pub data Source : Type 0 where
  manifest heuristic observed_build fingerprint binary : Source

pub data Confidence : Type 0 where
  low medium high : Confidence

pub record Evidence : Type 0 where
  pub source : Source
  pub detail : Bytes
  pub confidence : Confidence

pub data Scope : Type 0 where
  required optional excluded : Scope

pub data CpeProvenance : Type 0 where
  unspecified synthesized_wildcard_vendor : CpeProvenance

pub record Component : Type 0 where
  pub name : Bytes
  pub version : Bytes
  pub supplier : Bytes
  pub license : Bytes
  pub purl : Bytes
  pub cpe : Bytes
  pub cpe_provenance : CpeProvenance
  pub sha256 : Bytes
  pub root : Bytes
  pub evidence : List Evidence
  pub used_in_build : Bool
  pub scope : Scope

-- static_cast<int>
abbrev pub confidence_rank : Confidence → ℕ
confidence_rank low = 0
confidence_rank medium = 1
confidence_rank high = 2

abbrev pub source_rank : Source → ℕ
source_rank manifest = 0
source_rank heuristic = 1
source_rank observed_build = 2
source_rank fingerprint = 3
source_rank binary = 4

-- Two values of an enum are equal when their numbers are.
unfoldable pub evidence_order : Evidence → Evidence → Bool
evidence_order left right =
    if not (source_rank left.source == source_rank right.source)
    then ltb (source_rank left.source) (source_rank right.source)
    else if not (equal left.detail right.detail)
    then less left.detail right.detail
    else ltb (confidence_rank right.confidence) (confidence_rank left.confidence)

unfoldable pub has_same_evidence_identity : Evidence → Evidence → Bool
has_same_evidence_identity left right =
    source_rank left.source == source_rank right.source && equal left.detail right.detail

unfoldable pub normalize_evidence : List Evidence → List Evidence
normalize_evidence evidence = unique_by has_same_evidence_identity (sort_by evidence_order evidence)

abbrev pub scope_rank : Scope → ℕ
scope_rank required = 0
scope_rank optional = 1
scope_rank excluded = 2

unfoldable pub component_identity : Component → Bytes
component_identity component =
    let parsed_purl = parse component.purl in
    if not (is_empty component.purl)
    then if parsed_purl.complete then parsed_purl.value.canonical else component.purl
    else component.name ++ b'@' ∷ component.version

-- the value of a text field after the merge
abbrev pub filled : Bytes → Bytes → Bytes
filled destination source = if is_empty destination then source else destination

unfoldable pub merge_into : Component → Component → Component
merge_into destination source = record {
  name = filled destination.name source.name;
  version = filled destination.version source.version;
  supplier = filled destination.supplier source.supplier;
  license = filled destination.license source.license;
  purl = destination.purl;
  cpe = filled destination.cpe source.cpe;
  cpe_provenance =
      if is_empty destination.cpe then source.cpe_provenance else destination.cpe_provenance;
  sha256 = filled destination.sha256 source.sha256;
  root = filled destination.root source.root;
  evidence = normalize_evidence (destination.evidence ++ source.evidence);
  used_in_build = destination.used_in_build || source.used_in_build;
  scope =
      if ltb (scope_rank source.scope) (scope_rank destination.scope)
      then source.scope
      else destination.scope;
}

raise_confidence : Confidence → List Evidence → Confidence
raise_confidence highest [] = highest
raise_confidence highest (e ∷ es) =
    raise_confidence
      (if ltb (confidence_rank highest) (confidence_rank e.confidence)
        then e.confidence
        else highest)
      es

unfoldable pub highest_confidence : Component → Confidence
unfolding raise_confidence
highest_confidence component = raise_confidence low component.evidence

-- std::map<std::string, Component>: entries in the order of their keys.
abbrev pub ComponentMap : Type 0
ComponentMap = List (Bytes × Component)

-- the search in the map, and the insertion or the merge
unfoldable pub add_component : Component → Bytes → ComponentMap → ComponentMap
add_component component key [] =
    (key, record component { evidence = normalize_evidence component.evidence }) ∷ []
add_component component key ((k, existing) ∷ entries) =
    let later = add_component component key entries in
    if less k key
    then (k, existing) ∷ later
    else if equal k key
    then (k, merge_into existing component) ∷ entries
    else (key, record component { evidence = normalize_evidence component.evidence })
      ∷ (k, existing)
      ∷ entries

unfoldable pub collect_components : ComponentMap → List Component → ComponentMap
collect_components entries [] = entries
collect_components entries (c ∷ cs) =
    collect_components (add_component c (component_identity c) entries) cs

abbrev pub values_of : ComponentMap → List Component
values_of [] = []
values_of ((k, c) ∷ entries) = c ∷ values_of entries

unfoldable pub merge_all : List Component → List Component
merge_all components = values_of (collect_components [] components)
