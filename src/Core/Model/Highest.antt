-- ===== src/Core/Model/Highest.antt =====
-- `highest_confidence` of src/core/model.cpp, beside `normalize_evidence`.
use bomwerk.Prelude.{
  ℕ, ltb, ◌≤◌, ◌≡◌, List, [], ◌∷◌, arith, All, All-mono, Any, inl, inr, sort_by, unique_by,
  unique_behind, sort_by-All, Bool-cases, subst, refl,
}
use bomwerk.Core.Model.{
  Component, Evidence, Confidence, confidence_rank, has_same_evidence_identity, evidence_order,
  normalize_evidence, raise_confidence, highest_confidence,
}
use bomwerk.Core.Model.Normalize.{SpeaksFor, normalize_evidence_lem}

abbrev AtMost : ℕ → Evidence → Type 0
AtMost n e = confidence_rank e.confidence ≤ n

raise_confidence_least :
    (c : Confidence) (es : List Evidence) (n : ℕ)
    → confidence_rank c ≤ n
    → All (AtMost n) es
    → confidence_rank (raise_confidence c es) ≤ n
unfolding raise_confidence
raise_confidence_least c [] n h a = h
raise_confidence_least c (e ∷ es) n h (he, a) =
    elim (Bool-cases (ltb (confidence_rank c) (confidence_rank e.confidence))) [
      | inl lt ↦ rw (lt) (raise_confidence_least e.confidence es n he a)
      | inr ge ↦ rw (ge) (raise_confidence_least c es n h a)
    ]

raise_confidence_bounds :
    (c : Confidence) (es : List Evidence)
    → (confidence_rank c ≤ confidence_rank (raise_confidence c es))
      × All (AtMost (confidence_rank (raise_confidence c es))) es
unfolding raise_confidence
raise_confidence_bounds c [] = (omega arith, tt)
raise_confidence_bounds c (e ∷ es) =
    let Bounded : Confidence → Type 0 = λ r.
      (confidence_rank c ≤ confidence_rank r)
      × ((confidence_rank e.confidence ≤ confidence_rank r)
          × All (AtMost (confidence_rank r)) es) in
    elim (Bool-cases (ltb (confidence_rank c) (confidence_rank e.confidence))) [
      | inl lt ↦
          let (h, a) = raise_confidence_bounds e.confidence es in
          let step : raise_confidence e.confidence es ≡ raise_confidence c (e ∷ es) =
            rw (lt, raise_confidence) refl in
          let first : confidence_rank c ≤ confidence_rank (raise_confidence e.confidence es) =
            ground arith in
          subst Bounded step (first, (h, a))
      | inr ge ↦
          let (h, a) = raise_confidence_bounds c es in
          let step : raise_confidence c es ≡ raise_confidence c (e ∷ es) =
            rw (ge, raise_confidence) refl in
          let second : confidence_rank e.confidence ≤ confidence_rank (raise_confidence c es) =
            ground arith in
          subst Bounded step (h, (second, a))
    ]

unique_behind-All :
    (P : Evidence → Type 0) (last : Evidence) (xs : List Evidence)
    → All P xs
    → All P (unique_behind has_same_evidence_identity last xs)
unfolding unique_behind
unique_behind-All P last [] h = tt
unique_behind-All P last (x ∷ xs) (hx, h) = elim (Bool-cases (has_same_evidence_identity last x)) [
  | inl e ↦ rw (e, unique_behind) (unique_behind-All P last xs h)
  | inr e ↦ rw (e, unique_behind) (hx, unique_behind-All P x xs h)
]

unique_by-All :
    (P : Evidence → Type 0) (xs : List Evidence)
    → All P xs
    → All P (unique_by has_same_evidence_identity xs)
unfolding unique_by
unique_by-All P [] h = tt
unique_by-All P (x ∷ xs) (hx, h) = (hx, unique_behind-All P x xs h)

spoken_for :
    (n : ℕ) (e : Evidence) (rs : List Evidence)
    → All (AtMost n) rs
    → Any (SpeaksFor e) rs
    → AtMost n e
spoken_for n e [] a h = elim h [ ]
spoken_for n e (r ∷ rs) (hr, a) (inl (same, le)) = omega arith
spoken_for n e (r ∷ rs) (hr, a) (inr h) = spoken_for n e rs a h

-- Normalizing the evidence of a component does not change its highest confidence.
pub highest_confidence-normalize_evidence :
    (component : Component)
    → confidence_rank
        (highest_confidence (record component { evidence = normalize_evidence component.evidence }))
      ≡ confidence_rank (highest_confidence component)
unfolding highest_confidence normalize_evidence
highest_confidence-normalize_evidence component =
    let xs = component.evidence in
    let rank : List Evidence → ℕ = λ es. confidence_rank (raise_confidence Confidence.low es) in
    let (a, b) = raise_confidence_bounds Confidence.low xs in
    let (c, d) = raise_confidence_bounds Confidence.low (normalize_evidence xs) in
    let below : rank (normalize_evidence xs) ≤ rank xs =
      raise_confidence_least Confidence.low (normalize_evidence xs) (rank xs) (omega arith) (
        unique_by-All (AtMost (rank xs)) (sort_by evidence_order xs)
          (sort_by-All evidence_order (AtMost (rank xs)) xs b)) in
    let above : rank xs ≤ rank (normalize_evidence xs) =
      raise_confidence_least Confidence.low xs (rank (normalize_evidence xs)) (omega arith) (
        All-mono (λ e. Any (SpeaksFor e) (normalize_evidence xs))
          (AtMost (rank (normalize_evidence xs))) xs
          (λ e. spoken_for (rank (normalize_evidence xs)) e (normalize_evidence xs) d)
          (normalize_evidence_lem xs).1) in
    omega arith
