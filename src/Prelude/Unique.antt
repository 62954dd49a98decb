-- ===== src/Prelude/Unique.antt =====
-- std::unique after std::sort: nothing stands twice, and what stood somewhere is still there.
use mathlib.Core.Path.{◌≡◌, refl, subst}
use mathlib.Core.Logic.{◌⊎◌, inl, inr}
use mathlib.Core.Bool.{Bool, true, false}
use mathlib.Core.List.{List, [], ◌∷◌}
use bomwerk.Prelude.Tests.{Bool-cases}
use bomwerk.Prelude.Lists.{All, All-mono}
use bomwerk.Prelude.Sort.{
  IsOrder, IsSorted, IsIncreasing, sort_by, unique_behind, unique_by, sort_by-IsSorted,
  sort_by-All_inverse, lt_irrefl,
}

module _ {ℓ} {A : Type ℓ} (P : A → Type 0) where
  abbrev pub Any : List A → Type 0
  Any [] = ⊥
  Any (x ∷ xs) = P x ⊎ Any xs

module _ {ℓ} {A : Type ℓ} {lt same before : A → A → Bool}
    (gap : (a b : A) → lt b a ≡ false → same a b ≡ false → before a b ≡ true)
    (before_trans : (a b c : A) → before a b ≡ true → before b c ≡ true → before a c ≡ true) where
  unique_behind-IsIncreasing :
      (last : A) (xs : List A)
      → All (λ y. lt y last ≡ false) xs
      → IsSorted lt xs
      → IsIncreasing before (last ∷ unique_behind same last xs)
  unfolding unique_behind
  unique_behind-IsIncreasing last [] h s = (tt, tt)
  unique_behind-IsIncreasing last (x ∷ xs) (hx, h) (sx, s) = elim (Bool-cases (same last x)) [
    | inl e ↦ rw (e, unique_behind) (unique_behind-IsIncreasing last xs h s)
    | inr e ↦
        let first : before last x ≡ true = gap last x hx e in
        let (later, k) = unique_behind-IsIncreasing x xs sx s in
        rw (e, unique_behind)
          (
            (
              first,
              All-mono (λ y. before x y ≡ true) (λ y. before last y ≡ true) _
                  (λ y. before_trans last x y first) later,
            ),
            (later, k),
          )
  ]

  pub unique_by-IsIncreasing :
      (xs : List A) → IsSorted lt xs → IsIncreasing before (unique_by same xs)
  unfolding unique_by
  unique_by-IsIncreasing [] s = tt
  unique_by-IsIncreasing (x ∷ xs) (sx, s) = unique_behind-IsIncreasing x xs sx s

-- what stands for `x` in a list without repetitions
abbrev pub Stands {ℓ} : {A : Type ℓ} → (A → A → Bool) → (A → A → Bool) → A → A → Type 0
Stands lt same x r = (same r x ≡ true) × (lt x r ≡ false)

module _ {ℓ} {A : Type ℓ} {lt : A → A → Bool} (o : IsOrder lt) (same : A → A → Bool)
    (same_refl : (a : A) → same a a ≡ true) where
  unique_behind-Any :
      (last : A) (xs : List A)
      → All (λ y. lt y last ≡ false) xs
      → IsSorted lt xs
      → All (λ x. Any (Stands lt same x) (last ∷ unique_behind same last xs)) xs
  unfolding unique_behind
  unique_behind-Any last [] h s = tt
  unique_behind-Any last (x ∷ xs) (hx, h) (sx, s) = elim (Bool-cases (same last x)) [
    | inl e ↦
        let same_list : unique_behind same last xs ≡ unique_behind same last (x ∷ xs) =
          rw (e, unique_behind) refl in
        subst (λ u. All (λ y. Any (Stands lt same y) (last ∷ u)) (x ∷ xs)) same_list
          (inl (e, hx), unique_behind-Any last xs h s)
    | inr e ↦
        let next_list : x ∷ unique_behind same x xs ≡ unique_behind same last (x ∷ xs) =
          rw (e, unique_behind) refl in
        subst (λ u. All (λ y. Any (Stands lt same y) (last ∷ u)) (x ∷ xs)) next_list
          (
            inr (inl (same_refl x, lt_irrefl o x)),
            All-mono (λ y. Any (Stands lt same y) (x ∷ unique_behind same x xs))
                (λ y. Any (Stands lt same y) (last ∷ x ∷ unique_behind same x xs)) xs (λ y k. inr k)
                (unique_behind-Any x xs sx s),
          )
  ]

  unique_by-Any :
      (xs : List A) → IsSorted lt xs → All (λ x. Any (Stands lt same x) (unique_by same xs)) xs
  unfolding unique_by
  unique_by-Any [] s = tt
  unique_by-Any (x ∷ xs) (sx, s) = (inl (same_refl x, lt_irrefl o x), unique_behind-Any x xs sx s)

  pub unique_by-sort_by-Any :
      (xs : List A) → All (λ x. Any (Stands lt same x) (unique_by same (sort_by lt xs))) xs
  unique_by-sort_by-Any xs =
      sort_by-All_inverse lt (λ x. Any (Stands lt same x) (unique_by same (sort_by lt xs))) xs
        (unique_by-Any (sort_by lt xs) (sort_by-IsSorted o xs))

-- Nothing is in the outcome that was not there before.
module _ {ℓ} {A : Type ℓ} (same : A → A → Bool) (P : A → Type 0) where
  unique_behind-All : (last : A) (xs : List A) → All P xs → All P (unique_behind same last xs)
  unfolding unique_behind
  unique_behind-All last [] h = tt
  unique_behind-All last (x ∷ xs) (hx, h) = elim (Bool-cases (same last x)) [
    | inl e ↦ rw (e, unique_behind) (unique_behind-All last xs h)
    | inr e ↦ rw (e, unique_behind) (hx, unique_behind-All x xs h)
  ]

  pub unique_by-All : (xs : List A) → All P xs → All P (unique_by same xs)
  unfolding unique_by
  unique_by-All [] h = tt
  unique_by-All (x ∷ xs) (hx, h) = (hx, unique_behind-All x xs h)

pub All-self : {A : Type 0} (xs : List A) → All (λ y. Any (λ x. x ≡ y) xs) xs
All-self [] = tt
All-self (x ∷ xs) = (
  inl refl,
  All-mono (λ y. Any (λ z. z ≡ y) xs) (λ y. Any (λ z. z ≡ y) (x ∷ xs)) xs (λ y k. inr k)
      (All-self xs),
)
