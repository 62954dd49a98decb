-- ===== src/Vuln/Delta/Unchanged.antt =====
-- `is_unchanged` of src/vuln/delta.cpp.
use bomwerk.Prelude.{
  ◌≡◌, ◌↔◌, refl, sym, ap, ap₂, ◌∙◌, true, false, List, [], ◌∷◌, arith, Bytes, equal, equal_iff,
  less, Bool-cases, inl, inr,
}
use bomwerk.Vuln.Delta.{
  AdvisoryRevision, PurlAdvisoryDelta, is_unchanged, diff_advisory_revisions, add_id, modify_id,
  remove_id,
}

revision_of : Bytes → Bytes → AdvisoryRevision
revision_of advisory_id modified = record { advisory_id = advisory_id; modified = modified }

same_revision :
    (p c : AdvisoryRevision)
    → equal p.advisory_id c.advisory_id ≡ true
    → equal p.modified c.modified ≡ true
    → p ≡ c
unfolding revision_of
same_revision p c e f =
    ap₂ revision_of ((equal_iff p.advisory_id c.advisory_id).0 e)
      ((equal_iff p.modified c.modified).0 f)

add_changes : (id : Bytes) (delta : PurlAdvisoryDelta) → is_unchanged (add_id id delta) ≡ false
unfolding is_unchanged
add_changes id delta = refl

modify_changes :
    (id : Bytes) (delta : PurlAdvisoryDelta) → is_unchanged (modify_id id delta) ≡ false
unfolding is_unchanged
modify_changes id delta = ground arith

remove_changes :
    (id : Bytes) (delta : PurlAdvisoryDelta) → is_unchanged (remove_id id delta) ≡ false
unfolding is_unchanged
remove_changes id delta = ground arith

unchanged_same :
    (purl : Bytes) (previous current : List AdvisoryRevision)
    → is_unchanged (diff_advisory_revisions purl previous current) ≡ true
    → previous ≡ current
unfolding diff_advisory_revisions
unchanged_same purl [] [] h = refl
unchanged_same purl [] (c ∷ current) h =
    cc (sym (add_changes c.advisory_id (diff_advisory_revisions purl [] current)) ∙ h)
unchanged_same purl (p ∷ previous) [] h =
    cc (sym (remove_changes p.advisory_id (diff_advisory_revisions purl previous [])) ∙ h)
unchanged_same purl (p ∷ previous) (c ∷ current) h =
    elim (Bool-cases (equal p.advisory_id c.advisory_id)) [
      | inl e ↦ elim (Bool-cases (equal p.modified c.modified)) [
        | inl f ↦
            ap₂ (λ r rs. r ∷ rs) (same_revision p c e f)
              (unchanged_same purl previous current (rw (diff_advisory_revisions, e, f) at h))
        | inr f ↦ cc (
            sym (modify_changes c.advisory_id (diff_advisory_revisions purl previous current))
            ∙ (rw (diff_advisory_revisions, e, f) at h))
      ]
      | inr e ↦ elim (Bool-cases (less p.advisory_id c.advisory_id)) [
        | inl f ↦ cc (
            sym (remove_changes p.advisory_id (diff_advisory_revisions purl previous (c ∷ current)))
            ∙ (rw (diff_advisory_revisions, e, f) at h))
        | inr f ↦ cc (
            sym (add_changes c.advisory_id (diff_advisory_revisions purl (p ∷ previous) current))
            ∙ (rw (diff_advisory_revisions, e, f) at h))
      ]
    ]

same_unchanged :
    (purl : Bytes) (revisions : List AdvisoryRevision)
    → is_unchanged (diff_advisory_revisions purl revisions revisions) ≡ true
unfolding diff_advisory_revisions is_unchanged
same_unchanged purl [] = refl
same_unchanged purl (r ∷ revisions) =
    rw
      (
        diff_advisory_revisions,
        (equal_iff r.advisory_id r.advisory_id).1 refl,
        (equal_iff r.modified r.modified).1 refl,
      )
      (same_unchanged purl revisions)

-- A refresh is unchanged exactly when the feed gave what was stored, revision by revision; for this
-- the lists need not be in order.
pub is_unchanged_iff :
    (purl : Bytes) (previous current : List AdvisoryRevision)
    → (is_unchanged (diff_advisory_revisions purl previous current) ≡ true) ↔ (previous ≡ current)
is_unchanged_iff purl previous current = (
  unchanged_same purl previous current,
  λ same.
      ap (λ rs. is_unchanged (diff_advisory_revisions purl previous rs)) (sym same)
      ∙ same_unchanged purl previous,
)
