-- ===== src/Vuln/Delta.antt =====
-- src/vuln/delta.hpp and src/vuln/delta.cpp: what changed between two lists of advisories.
pub mod Membership
pub mod Unchanged
use bomwerk.Prelude.{
  Bool, true, false, not, ◌&&◌, List, [], ◌∷◌, Bytes, equal, less, is_empty, if◌then◌else◌,
}

pub record AdvisoryRevision : Type 0 where
  pub advisory_id : Bytes
  pub modified : Bytes

pub record PurlAdvisoryDelta : Type 0 where
  pub purl : Bytes
  pub added_advisory_ids : List Bytes
  pub modified_advisory_ids : List Bytes
  pub removed_advisory_ids : List Bytes

abbrev pub no_ids : List Bytes → Bool
no_ids [] = true
no_ids (x ∷ xs) = false

unfoldable pub is_unchanged : PurlAdvisoryDelta → Bool
is_unchanged delta =
    no_ids delta.added_advisory_ids
    && no_ids delta.modified_advisory_ids
    && no_ids delta.removed_advisory_ids

abbrev add_id : Bytes → PurlAdvisoryDelta → PurlAdvisoryDelta
add_id id delta = record delta { added_advisory_ids = id ∷ delta.added_advisory_ids }

abbrev modify_id : Bytes → PurlAdvisoryDelta → PurlAdvisoryDelta
modify_id id delta = record delta { modified_advisory_ids = id ∷ delta.modified_advisory_ids }

abbrev remove_id : Bytes → PurlAdvisoryDelta → PurlAdvisoryDelta
remove_id id delta = record delta { removed_advisory_ids = id ∷ delta.removed_advisory_ids }

-- The loops of `diff_advisory_revisions`, on what lies behind the two indices. What a round pushes
-- stands in front of what the later rounds push.
unfoldable pub diff_advisory_revisions :
    Bytes → List AdvisoryRevision → List AdvisoryRevision → PurlAdvisoryDelta
diff_advisory_revisions purl [] [] = record {
  purl = purl;
  added_advisory_ids = [];
  modified_advisory_ids = [];
  removed_advisory_ids = [];
}
diff_advisory_revisions purl [] (c ∷ current) =
    add_id c.advisory_id (diff_advisory_revisions purl [] current)
diff_advisory_revisions purl (p ∷ previous) [] =
    remove_id p.advisory_id (diff_advisory_revisions purl previous [])
diff_advisory_revisions purl (p ∷ previous) (c ∷ current) =
    elim (equal p.advisory_id c.advisory_id) [
      | true ↦
          let rest = diff_advisory_revisions purl previous current in
          if not (equal p.modified c.modified) then modify_id c.advisory_id rest else rest
      | false ↦ elim (less p.advisory_id c.advisory_id) [
        | true ↦ remove_id p.advisory_id (diff_advisory_revisions purl previous (c ∷ current))
        | false ↦ add_id c.advisory_id (diff_advisory_revisions purl (p ∷ previous) current)
      ]
    ]
