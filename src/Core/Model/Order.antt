-- ===== src/Core/Model/Order.antt =====
-- The orders on evidence of src/core/model.cpp.
use bomwerk.Prelude.{
  ◌≤◌, ◌≡◌, Bool, true, false, not, arith, equal_iff, less, ltb, ◌==◌, if◌then◌else◌, IsOrder,
  less-IsOrder,
}
use bomwerk.Core.Model.{
  Source, Confidence, Evidence, source_rank, confidence_rank, evidence_order,
  has_same_evidence_identity,
}

-- The order of the pairs of source and detail, by which evidence is told apart.
unfoldable pub identity_before : Evidence → Evidence → Bool
identity_before a b =
    if not (source_rank a.source == source_rank b.source)
    then ltb (source_rank a.source) (source_rank b.source)
    else less a.detail b.detail

source_rank-injective : (a b : Source) → source_rank a ≡ source_rank b → a ≡ b
source_rank-injective a b h = ground arith

confidence_rank-injective : (a b : Confidence) → confidence_rank a ≡ confidence_rank b → a ≡ b
confidence_rank-injective a b h = ground arith

evidence_asym : (a b : Evidence) → evidence_order a b ≡ true → evidence_order b a ≡ false
unfolding evidence_order
evidence_asym a b h = ground (
  arith,
  less-IsOrder.asym a.detail b.detail,
  equal_iff a.detail b.detail,
  equal_iff b.detail a.detail,
)

evidence_trans :
    (a b c : Evidence)
    → evidence_order a b ≡ true
    → evidence_order b c ≡ true
    → evidence_order a c ≡ true
unfolding evidence_order
evidence_trans a b c h k = ground (
  arith,
  less-IsOrder.trans a.detail b.detail c.detail,
  less-IsOrder.asym a.detail b.detail,
  equal_iff a.detail b.detail,
  equal_iff b.detail c.detail,
  equal_iff a.detail c.detail,
)

evidence_connex : (a b : Evidence) → evidence_order a b ≡ false → evidence_order b a ≡ false → a ≡ b
unfolding evidence_order
evidence_connex a b h k = ground (
  arith,
  less-IsOrder.connex a.detail b.detail,
  equal_iff a.detail b.detail,
  equal_iff b.detail a.detail,
  source_rank-injective a.source b.source,
  confidence_rank-injective a.confidence b.confidence,
)

pub evidence_order-IsOrder : IsOrder evidence_order
evidence_order-IsOrder = record {
  asym = evidence_asym;
  trans = evidence_trans;
  connex = evidence_connex;
}

pub identity_refl : (a : Evidence) → has_same_evidence_identity a a ≡ true
unfolding has_same_evidence_identity
identity_refl a = ground (arith, equal_iff a.detail a.detail)

pub identity_gap :
    (a b : Evidence)
    → evidence_order b a ≡ false
    → has_same_evidence_identity a b ≡ false
    → identity_before a b ≡ true
unfolding evidence_order has_same_evidence_identity identity_before
identity_gap a b h k = ground (
  arith,
  less-IsOrder.connex a.detail b.detail,
  equal_iff a.detail b.detail,
  equal_iff b.detail a.detail,
)

pub identity_before_trans :
    (a b c : Evidence)
    → identity_before a b ≡ true
    → identity_before b c ≡ true
    → identity_before a c ≡ true
unfolding identity_before
identity_before_trans a b c h k = ground (arith, less-IsOrder.trans a.detail b.detail c.detail)

-- Of two pieces of evidence with one identity, the one that is not behind the other has the
-- confidence that is not lower.
pub stronger_first :
    (r e : Evidence)
    → has_same_evidence_identity r e ≡ true
    → evidence_order e r ≡ false
    → confidence_rank e.confidence ≤ confidence_rank r.confidence
unfolding evidence_order has_same_evidence_identity
stronger_first r e h k = ground (arith, equal_iff r.detail e.detail, equal_iff e.detail r.detail)
