-- ===== src/Vuln/Finding/Union.antt =====
-- `merge_outcomes` of src/vuln/finding.cpp.
use mathlib.Core.List.{Permᴰ}
use mathlib.Core.List.Permᴰ
use native.Mathlib.Nat.{add_comm}
use bomwerk.Prelude.{
  ◌+◌, ◌≡◌, refl, ap, true, false, ◌++◌, arith, inl, inr, Bytes, equal, equal_iff, less,
  less-IsOrder, Bool-cases, IsSorted, IsIncreasing, IsWeakOrder, sort_by, sort_by-perm,
  sort_by-Permᴰ, sort_by-IsSorted, sort_weak-IsSorted, unique_by, unique_by-IsIncreasing,
  le_lt_trans, lt_irrefl, List, [], ◌∷◌, All, All-mono, All-self, Any, Stands, unique_by-All,
  sort_by-All, unique_by-sort_by-Any,
}
use bomwerk.Vuln.Finding.{
  VulnerabilityHit, MatchOutcome, orders_before, delta_orders_before, merge_outcomes,
}

gap : (a b : Bytes) → less b a ≡ false → equal a b ≡ false → less a b ≡ true
gap a b h k = elim (Bool-cases (less a b)) [
  | inl e ↦ e
  | inr e ↦ cc ((equal_iff a b).1 (less-IsOrder.connex a b e h))
]

less_le_trans : (a b c : Bytes) → less b a ≡ false → less c b ≡ false → less c a ≡ false
less_le_trans a b c h k = elim (Bool-cases (less c a)) [
  | inl e ↦ cc (le_lt_trans less-IsOrder b c a k e)
  | inr e ↦ e
]

less_refl : (a : Bytes) → less a a ≡ false
less_refl a = lt_irrefl less-IsOrder a

deltas-IsWeakOrder : IsWeakOrder delta_orders_before
unfolding delta_orders_before
deltas-IsWeakOrder = record {
  asym = λ a b h. less-IsOrder.asym a.purl b.purl h;
  le_trans = λ a b c h k. less_le_trans a.purl b.purl c.purl h k;
}

found_there : (x : Bytes) (us : List Bytes) → Any (Stands less equal x) us → Any (λ y. y ≡ x) us
found_there x [] h = absurd h
found_there x (u ∷ us) (inl (same, least)) = inl ((equal_iff u x).0 same)
found_there x (u ∷ us) (inr h) = inr (found_there x us h)

all_there : (xs : List Bytes) → All (λ x. Any (λ y. y ≡ x) (unique_by equal (sort_by less xs))) xs
all_there xs =
    let us = unique_by equal (sort_by less xs) in
    All-mono (λ x. Any (Stands less equal x) us) (λ x. Any (λ y. y ≡ x) us) xs
      (λ x h. found_there x us h)
      (unique_by-sort_by-Any less-IsOrder equal (λ a. (equal_iff a a).1 refl) xs)

only_there : (xs : List Bytes) → All (λ y. Any (λ x. x ≡ y) xs) (unique_by equal (sort_by less xs))
only_there xs =
    unique_by-All equal (λ y. Any (λ x. x ≡ y) xs) (sort_by less xs)
      (sort_by-All less (λ y. Any (λ x. x ≡ y) xs) xs (All-self xs))

module _ {Advisory : Type 0} where
  hit_asym :
      (a b : VulnerabilityHit Advisory) → orders_before a b ≡ true → orders_before b a ≡ false
  unfolding orders_before
  hit_asym a b h =
      ground
        (arith, equal_iff a.purl b.purl, equal_iff b.purl a.purl, less-IsOrder.asym a.purl b.purl)

  hit_le_trans :
      (a b c : VulnerabilityHit Advisory)
      → orders_before b a ≡ false
      → orders_before c b ≡ false
      → orders_before c a ≡ false
  unfolding orders_before
  hit_le_trans a b c h k = ground (
    arith,
    equal_iff b.purl a.purl,
    equal_iff c.purl b.purl,
    equal_iff c.purl a.purl,
    less_le_trans a.purl b.purl c.purl,
    less_refl a.purl,
    less-IsOrder.connex a.purl b.purl,
    less-IsOrder.connex b.purl c.purl,
    less-IsOrder.connex a.purl c.purl,
  )

  hits-IsWeakOrder : IsWeakOrder (orders_before {Advisory = Advisory})
  hits-IsWeakOrder = record { asym = hit_asym; le_trans = hit_le_trans }

  -- The hits of a union are those of the two outcomes, ordered by purl and, at one purl, the
  -- purl-exact ones first.
  pub record IsUnion (p c m : MatchOutcome Advisory) : Type 0 where
    pub all_hits : Permᴰ m.hits (p.hits ++ c.hits)
    pub sorted_hits : IsSorted orders_before m.hits
    pub all_deltas : Permᴰ m.changed_purls (p.changed_purls ++ c.changed_purls)
    pub sorted_deltas : IsSorted delta_orders_before m.changed_purls
    pub all_checked :
        All
          (λ purl. Any (λ y. y ≡ purl) m.cpe_checked_purls)
          (p.cpe_checked_purls ++ c.cpe_checked_purls)
    pub only_checked :
        All
          (λ purl. Any (λ y. y ≡ purl) (p.cpe_checked_purls ++ c.cpe_checked_purls))
          m.cpe_checked_purls
    pub checked_once : IsIncreasing less m.cpe_checked_purls
    pub examined : m.purls_examined ≡ p.purls_examined + c.purls_examined
    pub unchanged : m.purls_unchanged ≡ p.purls_unchanged + c.purls_unchanged
    pub uncovered :
        m.components_without_osv_coverage
        ≡ p.components_without_osv_coverage + c.components_without_osv_coverage

  -- The union of two outcomes holds the hits and the deltas of both and no others, the hits ordered by
  -- purl and at one purl the purl-exact ones first, the deltas by purl; the purls that were checked by
  -- CPE are those of either outcome and no others, each once and in order; the counts are the sums.
  pub merge_outcomes-IsUnion : (p c : MatchOutcome Advisory) → IsUnion p c (merge_outcomes p c)
  unfolding merge_outcomes
  merge_outcomes-IsUnion p c = record {
    all_hits = sort_by-Permᴰ orders_before (p.hits ++ c.hits);
    sorted_hits = sort_weak-IsSorted hits-IsWeakOrder (p.hits ++ c.hits);
    all_deltas = sort_by-Permᴰ delta_orders_before (p.changed_purls ++ c.changed_purls);
    sorted_deltas = sort_weak-IsSorted deltas-IsWeakOrder (p.changed_purls ++ c.changed_purls);
    all_checked = all_there (p.cpe_checked_purls ++ c.cpe_checked_purls);
    only_checked = only_there (p.cpe_checked_purls ++ c.cpe_checked_purls);
    examined = refl;
    unchanged = refl;
    checked_once =
        unique_by-IsIncreasing {lt = less} gap less-IsOrder.trans
          (sort_by less (p.cpe_checked_purls ++ c.cpe_checked_purls))
          (sort_by-IsSorted less-IsOrder (p.cpe_checked_purls ++ c.cpe_checked_purls));
    uncovered = refl;
  }

  -- Which outcome comes first does not change what was checked by CPE, nor any count.
  pub merge_outcomes_comm :
      (p c : MatchOutcome Advisory)
      → ((merge_outcomes p c).cpe_checked_purls ≡ (merge_outcomes c p).cpe_checked_purls)
        × ((merge_outcomes p c).purls_examined ≡ (merge_outcomes c p).purls_examined)
        × ((merge_outcomes p c).purls_unchanged ≡ (merge_outcomes c p).purls_unchanged)
  unfolding merge_outcomes
  merge_outcomes_comm p c = (
    ap (unique_by equal)
        (sort_by-perm less-IsOrder (Permᴰ.append_comm p.cpe_checked_purls c.cpe_checked_purls)),
    add_comm p.purls_examined c.purls_examined,
    add_comm p.purls_unchanged c.purls_unchanged,
  )
