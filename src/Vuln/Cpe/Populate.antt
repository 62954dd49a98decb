-- ===== src/Vuln/Cpe/Populate.antt =====
-- `populate_cpe_identifiers` of src/vuln/cpe.cpp.
use bomwerk.Prelude.{
  ◌≡◌, ◌⊎◌, refl, ap, ap₂, ◌∙◌, Bool, true, false, not, Option, none, some, List, [], ◌∷◌, Bytes,
  is_empty, Bool-cases, Option-cases, inl, inr, if◌then◌else◌,
}
use bomwerk.Core.Model.{Component, CpeProvenance}
use bomwerk.Core.Coverage.{
  MatchCoverage, matched, unmapped_purl_type, unversioned_purl, no_identifier,
  classify_match_coverage,
}
use bomwerk.Vuln.Cpe.Safe.{cpe_identifier_for_lem}
use bomwerk.Vuln.Cpe.{
  CpePopulationScope, unmapped_only, all_versioned, gated, with_identifier, cpe_identifier_for,
  populate_component, populate_cpe_identifiers,
}

-- whether the gate of the scope lets a component through
pub selects : CpePopulationScope → MatchCoverage → Bool
selects all_versioned coverage = true
selects unmapped_only matched = false
selects unmapped_only unmapped_purl_type = true
selects unmapped_only unversioned_purl = false
selects unmapped_only no_identifier = false

selects_lem :
    (scope : CpePopulationScope) (coverage : MatchCoverage)
    → gated scope coverage ≡ not (selects scope coverage)
unfolding gated selects
selects_lem all_versioned matched = refl
selects_lem all_versioned unmapped_purl_type = refl
selects_lem all_versioned unversioned_purl = refl
selects_lem all_versioned no_identifier = refl
selects_lem unmapped_only matched = refl
selects_lem unmapped_only unmapped_purl_type = refl
selects_lem unmapped_only unversioned_purl = refl
selects_lem unmapped_only no_identifier = refl

-- the rule: which identifier a component has afterwards
pub expected_cpe : CpePopulationScope → Component → Bytes
expected_cpe scope component =
    if not (is_empty component.cpe)
    then component.cpe
    else if selects scope (classify_match_coverage component.purl)
    then elim (cpe_identifier_for component.purl) [ none ↦ [] | some identifier ↦ identifier ]
    else []

is_empty-true : (s : Bytes) → is_empty s ≡ true → s ≡ []
is_empty-true [] h = refl
is_empty-true (c ∷ s) h = cc

with_identifier_cpe :
    (scope : CpePopulationScope) (component : Component) (o : Option Bytes)
    → component.cpe ≡ []
    → (with_identifier scope component o).cpe ≡ elim o [ none ↦ [] | some identifier ↦ identifier ]
unfolding with_identifier
with_identifier_cpe unmapped_only component none h = h
with_identifier_cpe all_versioned component none h = h
with_identifier_cpe unmapped_only component (some identifier) h = refl
with_identifier_cpe all_versioned component (some identifier) h = refl

-- the component without what the population may set
pub other_fields : Component → Component
other_fields component = record component { cpe = []; cpe_provenance = CpeProvenance.unspecified }

with_identifier_others :
    (scope : CpePopulationScope) (component : Component) (o : Option Bytes)
    → other_fields (with_identifier scope component o) ≡ other_fields component
unfolding with_identifier other_fields
with_identifier_others unmapped_only component none = refl
with_identifier_others all_versioned component none = refl
with_identifier_others unmapped_only component (some identifier) = refl
with_identifier_others all_versioned component (some identifier) = refl

-- A component keeps the identifier that it had; without one it gets the synthesized identifier of
-- its purl when its class is in the scope and there is one, and none otherwise; nothing else of it
-- changes, but for the provenance.
pub populate_component_lem :
    (scope : CpePopulationScope) (component : Component)
    → ((populate_component scope component).cpe ≡ expected_cpe scope component)
      × (other_fields (populate_component scope component) ≡ other_fields component)
unfolding populate_component expected_cpe
populate_component_lem scope component =
    let coverage = classify_match_coverage component.purl in
    elim (Bool-cases (is_empty component.cpe)) [
      | inr e ↦ rw (e) (refl, refl)
      | inl e ↦
          let bare : component.cpe ≡ [] = is_empty-true component.cpe e in
          elim (Bool-cases (selects scope coverage)) [
            | inl f ↦
                rw (e, selects_lem scope coverage, f)
                  (
                    with_identifier_cpe scope component (cpe_identifier_for component.purl) bare,
                    with_identifier_others scope component (cpe_identifier_for component.purl),
                  )
            | inr f ↦ rw (e, selects_lem scope coverage, f) (bare, refl)
          ]
    ]

kept :
    (scope : CpePopulationScope) (component : Component)
    → is_empty component.cpe ≡ false
    → populate_component scope component ≡ component
unfolding populate_component
kept scope component e = rw (e) refl

with_none :
    (scope : CpePopulationScope) (component : Component)
    → with_identifier scope component none ≡ component
unfolding with_identifier
with_none unmapped_only component = refl
with_none all_versioned component = refl

with_some :
    (scope : CpePopulationScope) (component : Component) (identifier : Bytes)
    → (with_identifier scope component (some identifier)).cpe ≡ identifier
unfolding with_identifier
with_some unmapped_only component identifier = refl
with_some all_versioned component identifier = refl

identified :
    (scope : CpePopulationScope) (component : Component)
    → (with_identifier scope component (cpe_identifier_for component.purl) ≡ component)
      ⊎ (is_empty (with_identifier scope component (cpe_identifier_for component.purl)).cpe ≡ false)
unfolding with_identifier
identified scope component = elim (Option-cases (cpe_identifier_for component.purl)) [
  | inl e ↦ inl (rw (e, with_identifier) (with_none scope component))
  | inr (identifier, e) ↦
      let (product, version, hp, hv, sp, sv, text, count) =
        cpe_identifier_for_lem component.purl identifier e in
      let filled : is_empty identifier ≡ false = ap is_empty text in
      inr (rw (e, with_identifier) (ap is_empty (with_some scope component identifier) ∙ filled))
]

settled :
    (scope : CpePopulationScope) (component : Component)
    → (populate_component scope component ≡ component)
      ⊎ (is_empty (populate_component scope component).cpe ≡ false)
unfolding populate_component
settled scope component = elim (Bool-cases (is_empty component.cpe)) [
  | inr e ↦ inl (kept scope component e)
  | inl e ↦ elim (Bool-cases (gated scope (classify_match_coverage component.purl))) [
    | inl f ↦ inl (rw (e, f) refl)
    | inr f ↦ rw (e, f) (identified scope component)
  ]
]

populate_component_twice :
    (scope : CpePopulationScope) (component : Component)
    → populate_component scope (populate_component scope component)
      ≡ populate_component scope component
populate_component_twice scope component = elim (settled scope component) [
  | inl same ↦ ap (populate_component scope) same
  | inr full ↦ kept scope (populate_component scope component) full
]

-- Populating a second time changes nothing.
pub populate_cpe_identifiers_twice :
    (components : List Component) (scope : CpePopulationScope)
    → populate_cpe_identifiers (populate_cpe_identifiers components scope) scope
      ≡ populate_cpe_identifiers components scope
unfolding populate_cpe_identifiers
populate_cpe_identifiers_twice [] scope = refl
populate_cpe_identifiers_twice (c ∷ cs) scope =
    ap₂ (λ d ds. d ∷ ds) (populate_component_twice scope c)
      (populate_cpe_identifiers_twice cs scope)
