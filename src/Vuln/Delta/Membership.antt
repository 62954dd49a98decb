-- ===== src/Vuln/Delta/Membership.antt =====
-- `diff_advisory_revisions` of src/vuln/delta.cpp against the revisions that the two lists give an id.
use bomwerk.Prelude.{
  ◌≡◌, refl, sym, ap, ◌∙◌, Bool, true, false, not, Option, none, some, List, [], ◌∷◌, arith, Bytes,
  equal, equal_iff, less, less-IsOrder, lt_irrefl, All, All-mono, IsIncreasing, if◌then◌else◌,
  Bool-cases, inl, inr,
}
use bomwerk.Core.Warnings.{contains}
use bomwerk.Vuln.Delta.{
  AdvisoryRevision, PurlAdvisoryDelta, add_id, remove_id, modify_id, diff_advisory_revisions,
}

-- when a list says that an advisory was modified, if it names the advisory
pub modified_in : List AdvisoryRevision → Bytes → Option Bytes
modified_in [] id = none
modified_in (r ∷ revisions) id =
    let later = modified_in revisions id in
    if equal r.advisory_id id then some r.modified else later

-- there, and not there
abbrev pub only_first : Option Bytes → Option Bytes → Bool
only_first none second = false
only_first (some a) none = true
only_first (some a) (some b) = false

abbrev pub differs : Option Bytes → Option Bytes → Bool
differs none second = false
differs (some a) none = false
differs (some a) (some b) = not (equal a b)

abbrev id_before : AdvisoryRevision → AdvisoryRevision → Bool
id_before a b = less a.advisory_id b.advisory_id

-- sorted by id, without repetitions
abbrev pub HasIdsInOrder : List AdvisoryRevision → Type 0
HasIdsInOrder = IsIncreasing id_before

abbrev After : Bytes → AdvisoryRevision → Type 0
After id r = less id r.advisory_id ≡ true

unnamed :
    (id : Bytes) (revisions : List AdvisoryRevision)
    → All (After id) revisions
    → modified_in revisions id ≡ none
unfolding modified_in
unnamed id [] h = refl
unnamed id (r ∷ revisions) (hr, h) =
    ground (arith, equal_iff r.advisory_id id, lt_irrefl less-IsOrder id, unnamed id revisions h)

-- what the delta says of one id
abbrev pub IsExact :
    List AdvisoryRevision → List AdvisoryRevision → Bytes → PurlAdvisoryDelta → Type 0
IsExact previous current id delta =
    (contains delta.removed_advisory_ids id
      ≡ only_first (modified_in previous id) (modified_in current id))
    × (contains delta.added_advisory_ids id
        ≡ only_first (modified_in current id) (modified_in previous id))
    × (contains delta.modified_advisory_ids id
        ≡ differs (modified_in previous id) (modified_in current id))

unnamed_at :
    (r : AdvisoryRevision) (revisions : List AdvisoryRevision) (id : Bytes)
    → All (After r.advisory_id) revisions
    → equal r.advisory_id id ≡ true
    → modified_in revisions id ≡ none
unnamed_at r revisions id h e =
    ap (modified_in revisions) (sym ((equal_iff r.advisory_id id).0 e))
    ∙ unnamed r.advisory_id revisions h

module _ (r : AdvisoryRevision) (previous current : List AdvisoryRevision) (id : Bytes)
    (delta : PurlAdvisoryDelta) (exact : IsExact previous current id delta) where
  IsExact-remove :
      All (After r.advisory_id) previous
      → (equal r.advisory_id id ≡ true → modified_in current id ≡ none)
      → IsExact (r ∷ previous) current id (remove_id r.advisory_id delta)
  unfolding modified_in
  IsExact-remove later absent =
      let (removed, added, modified) = exact in
      elim (Bool-cases (equal r.advisory_id id)) [
        | inl e ↦
            let no_previous : modified_in previous id ≡ none = unnamed_at r previous id later e in
            let no_current : modified_in current id ≡ none = absent e in
            (ground arith, ground arith, ground arith)
        | inr e ↦ (ground arith, ground arith, ground arith)
      ]

  IsExact-add :
      All (After r.advisory_id) current
      → (equal r.advisory_id id ≡ true → modified_in previous id ≡ none)
      → IsExact previous (r ∷ current) id (add_id r.advisory_id delta)
  unfolding modified_in
  IsExact-add later absent =
      let (removed, added, modified) = exact in
      elim (Bool-cases (equal r.advisory_id id)) [
        | inl e ↦
            let no_current : modified_in current id ≡ none = unnamed_at r current id later e in
            let no_previous : modified_in previous id ≡ none = absent e in
            (ground arith, ground arith, ground arith)
        | inr e ↦ (ground arith, ground arith, ground arith)
      ]

  IsExact-both :
      (c : AdvisoryRevision)
      → All (After r.advisory_id) previous
      → All (After c.advisory_id) current
      → r.advisory_id ≡ c.advisory_id
      → IsExact
          (r ∷ previous)
          (c ∷ current)
          id
          (if not (equal r.modified c.modified) then modify_id c.advisory_id delta else delta)
  unfolding modified_in
  IsExact-both c later_previous later_current same =
      let (removed, added, modified) = exact in
      let alike : equal r.advisory_id id ≡ equal c.advisory_id id = ap (λ x. equal x id) same in
      elim (Bool-cases (equal c.advisory_id id)) [
        | inl e ↦
            let no_previous : modified_in previous id ≡ none =
              unnamed_at r previous id later_previous (alike ∙ e) in
            let no_current : modified_in current id ≡ none =
              unnamed_at c current id later_current e in
            elim (Bool-cases (equal r.modified c.modified)) [
              | inl f ↦ rw (f) (ground arith, ground arith, ground arith)
              | inr f ↦ rw (f) (ground arith, ground arith, ground arith)
            ]
        | inr e ↦ elim (Bool-cases (equal r.modified c.modified)) [
          | inl f ↦ rw (f) (ground arith, ground arith, ground arith)
          | inr f ↦ rw (f) (ground arith, ground arith, ground arith)
        ]
      ]

not_before : (s t : Bytes) → equal s t ≡ false → less s t ≡ false → less t s ≡ true
not_before s t e f = elim (Bool-cases (less t s)) [
  | inl h ↦ h
  | inr h ↦ cc ((equal_iff s t).1 (less-IsOrder.connex s t f h))
]

-- an id before the first of a list in order is not named by the list
unnamed_before :
    (s id : Bytes) (r : AdvisoryRevision) (revisions : List AdvisoryRevision)
    → less s r.advisory_id ≡ true
    → All (After r.advisory_id) revisions
    → equal s id ≡ true
    → modified_in (r ∷ revisions) id ≡ none
unnamed_before s id r revisions first later e =
    ap (modified_in (r ∷ revisions)) (sym ((equal_iff s id).0 e))
    ∙ unnamed s (r ∷ revisions) (
      first,
      All-mono (After r.advisory_id) (After s) revisions
          (λ q. less-IsOrder.trans s r.advisory_id q.advisory_id first) later,
    )

-- For lists sorted by id, each id at most once: an id is removed when it is in the stored list and
-- not in the new one, added when it is in the new one and not in the stored one, modified when it is
-- in both with different times, and in no list of the delta otherwise.
pub diff_advisory_revisions_lem :
    (purl id : Bytes) (previous current : List AdvisoryRevision)
    → HasIdsInOrder previous
    → HasIdsInOrder current
    → IsExact previous current id (diff_advisory_revisions purl previous current)
unfolding diff_advisory_revisions modified_in
diff_advisory_revisions_lem purl id [] [] hp hc = (refl, refl, refl)
diff_advisory_revisions_lem purl id [] (c ∷ current) hp (hc, k) =
    IsExact-add c [] current id (diff_advisory_revisions purl [] current)
      (diff_advisory_revisions_lem purl id [] current tt k) hc (λ e. refl)
diff_advisory_revisions_lem purl id (p ∷ previous) [] (hp, h) hc =
    IsExact-remove p previous [] id (diff_advisory_revisions purl previous [])
      (diff_advisory_revisions_lem purl id previous [] h tt) hp (λ e. refl)
diff_advisory_revisions_lem purl id (p ∷ previous) (c ∷ current) (hp, h) (hc, k) =
    elim (Bool-cases (equal p.advisory_id c.advisory_id)) [
      | inl e ↦
          rw (diff_advisory_revisions, e)
            (IsExact-both p previous current id (diff_advisory_revisions purl previous current)
              (diff_advisory_revisions_lem purl id previous current h k) c hp hc
              ((equal_iff p.advisory_id c.advisory_id).0 e))
      | inr e ↦ elim (Bool-cases (less p.advisory_id c.advisory_id)) [
        | inl f ↦
            rw (diff_advisory_revisions, e, f)
              (IsExact-remove p previous (c ∷ current) id
                (diff_advisory_revisions purl previous (c ∷ current))
                (diff_advisory_revisions_lem purl id previous (c ∷ current) h (hc, k)) hp
                (unnamed_before p.advisory_id id c current f hc))
        | inr f ↦
            rw (diff_advisory_revisions, e, f)
              (IsExact-add c (p ∷ previous) current id
                (diff_advisory_revisions purl (p ∷ previous) current)
                (diff_advisory_revisions_lem purl id (p ∷ previous) current (hp, h) k) hc
                (unnamed_before c.advisory_id id p previous
                  (not_before p.advisory_id c.advisory_id e f) hp))
      ]
    ]
