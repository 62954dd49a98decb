-- ===== src/Core/Model/Normalize.antt =====
-- `normalize_evidence` of src/core/model.cpp.
use mathlib.Core.List.{Permᴰ}
use bomwerk.Prelude.{
  ◌≤◌, ◌≡◌, ap, true, List, [], ◌∷◌, All, All-mono, Any, IsIncreasing, sort_by, unique_by,
  sort_by-perm, sort_by-IsSorted, unique_by-IsIncreasing, unique_by-sort_by-Any, inl, inr,
}
use bomwerk.Core.Model.{
  Evidence, confidence_rank, has_same_evidence_identity, evidence_order, normalize_evidence,
}
use bomwerk.Core.Model.Order.{
  identity_before, evidence_order-IsOrder, identity_refl, identity_gap, identity_before_trans,
  stronger_first,
}

-- The outcome does not depend on the order in which the evidence was gathered.
pub normalize_evidence-perm :
    {xs ys : List Evidence} → Permᴰ xs ys → normalize_evidence xs ≡ normalize_evidence ys
unfolding normalize_evidence
normalize_evidence-perm p =
    ap (unique_by has_same_evidence_identity) (sort_by-perm evidence_order-IsOrder p)

-- `r` speaks for `e`: the same source and detail, with no lower confidence.
abbrev pub SpeaksFor : Evidence → Evidence → Type 0
SpeaksFor e r =
    (has_same_evidence_identity r e ≡ true)
    × (confidence_rank e.confidence ≤ confidence_rank r.confidence)

Any-mono :
    {A : Type 0} (P Q : A → Type 0) (xs : List A) → ((a : A) → P a → Q a) → Any P xs → Any Q xs
Any-mono P Q [] f h = h
Any-mono P Q (x ∷ xs) f (inl h) = inl (f x h)
Any-mono P Q (x ∷ xs) f (inr h) = inr (Any-mono P Q xs f h)

-- Normalized evidence stands in the strict order of source and detail, so each pair is there once;
-- and every piece of the evidence is spoken for by one of the same source and detail, with no lower
-- confidence.
pub normalize_evidence_lem :
    (xs : List Evidence)
    → IsIncreasing identity_before (normalize_evidence xs)
      × All (λ e. Any (SpeaksFor e) (normalize_evidence xs)) xs
unfolding normalize_evidence
normalize_evidence_lem xs = (
  unique_by-IsIncreasing identity_gap identity_before_trans (sort_by evidence_order xs)
      (sort_by-IsSorted evidence_order-IsOrder xs),
  All-mono _ _ xs
      (λ e. Any-mono _ (SpeaksFor e) _ (λ r (same, kept). (same, stronger_first r e same kept)))
      (unique_by-sort_by-Any evidence_order-IsOrder has_same_evidence_identity identity_refl xs),
)
