-- ===== src/Tests/Deltas.antt =====
-- Runs on advisory lists: src/vuln/delta.cpp.
use bomwerk.Prelude.{◌≡◌, ◌↔◌, refl, true, List, [], ◌∷◌, codes, less}
use bomwerk.Vuln.Delta.{AdvisoryRevision, is_unchanged, diff_advisory_revisions}
use bomwerk.Vuln.Delta.Membership.{IsExact, HasIdsInOrder, diff_advisory_revisions_lem}
use bomwerk.Vuln.Delta.Unchanged.{is_unchanged_iff}

abbrev stored : List AdvisoryRevision
stored =
    record { advisory_id = codes "GHSA-1"; modified = codes "2024" }
    ∷ record { advisory_id = codes "GHSA-2"; modified = codes "2024" }
    ∷ []

abbrev refreshed : List AdvisoryRevision
refreshed =
    record { advisory_id = codes "GHSA-2"; modified = codes "2025" }
    ∷ record { advisory_id = codes "GHSA-3"; modified = codes "2025" }
    ∷ []

stored-HasIdsInOrder : HasIdsInOrder stored
unfolding less
stored-HasIdsInOrder = ((refl, tt), (tt, tt))

refreshed-HasIdsInOrder : HasIdsInOrder refreshed
unfolding less
refreshed-HasIdsInOrder = ((refl, tt), (tt, tt))

diff_advisory_revisions_lem_example :
    IsExact stored refreshed
      (codes "GHSA-2")
      (diff_advisory_revisions (codes "pkg:npm/a@1") stored refreshed)
diff_advisory_revisions_lem_example =
    diff_advisory_revisions_lem (codes "pkg:npm/a@1") (codes "GHSA-2") stored refreshed
      stored-HasIdsInOrder refreshed-HasIdsInOrder

is_unchanged_iff_run :
    (is_unchanged (diff_advisory_revisions (codes "pkg:npm/a@1") stored refreshed) ≡ true)
    ↔ (stored ≡ refreshed)
is_unchanged_iff_run = is_unchanged_iff (codes "pkg:npm/a@1") stored refreshed
