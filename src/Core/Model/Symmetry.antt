-- ===== src/Core/Model/Symmetry.antt =====
-- `merge_into` of src/core/model.cpp: what does not depend on the direction of a merge.
use mathlib.Core.List.Permᴰ
use bomwerk.Prelude.{◌≡◌, Bool, ◌||◌, arith, refl, ltb, min, if◌then◌else◌}
use bomwerk.Core.Model.{Component, Scope, required, optional, excluded, scope_rank, merge_into}
use bomwerk.Core.Model.Normalize.{normalize_evidence-perm}

or_comm : (x y : Bool) → (x || y) ≡ (y || x)
or_comm x y = ground arith

scope_merge : Scope → Scope → Scope
scope_merge a b = if ltb (scope_rank b) (scope_rank a) then b else a

scope_merge_comm : (a b : Scope) → scope_merge a b ≡ scope_merge b a
unfolding scope_merge
scope_merge_comm required required = refl
scope_merge_comm required optional = refl
scope_merge_comm required excluded = refl
scope_merge_comm optional required = refl
scope_merge_comm optional optional = refl
scope_merge_comm optional excluded = refl
scope_merge_comm excluded required = refl
scope_merge_comm excluded optional = refl
scope_merge_comm excluded excluded = refl

-- Merging two components either way gives the same evidence, the same build usage, and the scope
-- that includes more (required before optional before excluded).
pub merge_into_comm :
    (a b : Component)
    → ((merge_into a b).evidence ≡ (merge_into b a).evidence)
      × ((merge_into a b).used_in_build ≡ (merge_into b a).used_in_build)
      × ((merge_into a b).scope ≡ (merge_into b a).scope)
      × (scope_rank (merge_into a b).scope ≡ min (scope_rank a.scope) (scope_rank b.scope))
unfolding merge_into scope_merge
merge_into_comm a b = (
  normalize_evidence-perm (Permᴰ.append_comm a.evidence b.evidence),
  or_comm a.used_in_build b.used_in_build,
  scope_merge_comm a.scope b.scope,
  ground arith,
)
