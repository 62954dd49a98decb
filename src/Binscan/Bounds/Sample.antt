-- ===== src/Binscan/Bounds/Sample.antt =====
-- `normalize_and_cap` of src/binscan/bounds.hpp.
use bomwerk.Prelude.{
  ℕ, zero, suc, ◌≤◌, ◌≡◌, true, false, List, [], ◌∷◌, arith, Bytes, equal, equal_iff, less,
  less-IsOrder, length, length-take, leb, take, All-take, IsIncreasing, sort_by, unique_by,
  sort_by-IsSorted, unique_by-IsIncreasing, Bool-cases, inl, inr,
}
use bomwerk.Binscan.Bounds.{normalize_and_cap}

take-IsIncreasing : (n : ℕ) (xs : List Bytes) → IsIncreasing less xs → IsIncreasing less (take n xs)
take-IsIncreasing zero xs h = tt
take-IsIncreasing (suc n) [] h = tt
take-IsIncreasing (suc n) (x ∷ xs) (hx, h) =
    (All-take (λ y. less x y ≡ true) n xs hx, take-IsIncreasing n xs h)

gap : (a b : Bytes) → less b a ≡ false → equal a b ≡ false → less a b ≡ true
gap a b h k = elim (Bool-cases (less a b)) [
  | inl e ↦ e
  | inr e ↦ cc ((equal_iff a b).1 (less-IsOrder.connex a b e h))
]

-- A normalized list is strictly increasing and no longer than the cap.
pub normalize_and_cap_lem :
    (values : List Bytes) (maximum : ℕ)
    → IsIncreasing less (normalize_and_cap values maximum).0
      × (length (normalize_and_cap values maximum).0 ≤ maximum)
unfolding normalize_and_cap
normalize_and_cap_lem values maximum =
    let normalized = unique_by equal (sort_by less values) in
    let ordered : IsIncreasing less normalized =
      unique_by-IsIncreasing {lt = less} gap less-IsOrder.trans (sort_by less values)
        (sort_by-IsSorted less-IsOrder values) in
    elim (Bool-cases (leb (length normalized) maximum)) [
      | inl e ↦ rw (e) (ordered, ground arith)
      | inr e ↦ rw (e) (
        take-IsIncreasing maximum normalized ordered,
        omega (arith, length-take maximum normalized),
      )
    ]
