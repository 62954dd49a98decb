-- ===== src/Prelude/Sort.antt =====
-- std::sort and std::unique: an insertion sort by a strict order, and the removal of neighbours
-- that a test does not tell apart.
use mathlib.Core.Path.{◌≡◌, refl, ap, ap₂, ◌∙◌}
use mathlib.Core.Logic.{inl, inr}
use mathlib.Core.Bool.{Bool, true, false}
use mathlib.Core.List.{List, [], ◌∷◌, Permᴰ}
use native.Mathlib.Omega.{arith}
use bomwerk.Prelude.Tests.{Bool-cases}
use bomwerk.Prelude.Lists.{All, All-mono}

module _ {ℓ} {A : Type ℓ} (lt : A → A → Bool) where
  unfoldable pub insert_by : A → List A → List A
  insert_by e [] = e ∷ []
  insert_by e (x ∷ xs) = elim (lt x e) [ true ↦ x ∷ insert_by e xs | false ↦ e ∷ x ∷ xs ]

  unfoldable pub sort_by : List A → List A
  sort_by [] = []
  sort_by (x ∷ xs) = insert_by x (sort_by xs)

  -- Of a run of equals the first stays.
  unfoldable pub unique_behind : A → List A → List A
  unique_behind last [] = []
  unique_behind last (x ∷ xs) = elim (lt last x) [
    | true ↦ unique_behind last xs
    | false ↦ x ∷ unique_behind x xs
  ]

  unfoldable pub unique_by : List A → List A
  unique_by [] = []
  unique_by (x ∷ xs) = x ∷ unique_behind x xs

-- The laws of a strict total order.
pub record IsOrder {ℓ} {A : Type ℓ} (lt : A → A → Bool) : Type ℓ where
  pub asym : (a b : A) → lt a b ≡ true → lt b a ≡ false
  pub trans : (a b c : A) → lt a b ≡ true → lt b c ≡ true → lt a c ≡ true
  pub connex : (a b : A) → lt a b ≡ false → lt b a ≡ false → a ≡ b

module _ {ℓ} {A : Type ℓ} {lt : A → A → Bool} (o : IsOrder lt) where
  pub lt_irrefl : (a : A) → lt a a ≡ false
  lt_irrefl a = elim (Bool-cases (lt a a)) [ inl e ↦ o.asym a a e | inr e ↦ e ]

  pub le_lt_trans : (a x b : A) → lt x a ≡ false → lt x b ≡ true → lt a b ≡ true
  le_lt_trans a x b h k = elim (Bool-cases (lt a x)) [
    | inl e ↦ o.trans a x b e k
    | inr e ↦ let same : a ≡ x = o.connex a x e h in ap (λ y. lt y b) same ∙ k
  ]

  insert_comm :
      (a b : A) (xs : List A)
      → insert_by lt a (insert_by lt b xs) ≡ insert_by lt b (insert_by lt a xs)
  unfolding insert_by
  insert_comm a b [] = ground (arith, o.asym a b, o.connex a b)
  insert_comm a b (x ∷ xs) =
      ground
        (arith, o.asym a b, o.connex a b, le_lt_trans a x b, le_lt_trans b x a, insert_comm a b xs)

  -- The result depends on which elements there are, and not on their order.
  pub sort_by-perm : {xs ys : List A} → Permᴰ xs ys → sort_by lt xs ≡ sort_by lt ys
  unfolding sort_by
  sort_by-perm Permᴰ.nil = refl
  sort_by-perm (Permᴰ.cons e p) = ap₂ (insert_by lt) e (sort_by-perm p)
  sort_by-perm (Permᴰ.swap {a} {b} {l = l} e f) =
      insert_comm a b (sort_by lt l)
      ∙ ap₂ (λ x y. insert_by lt x (insert_by lt y (sort_by lt l))) f e
  sort_by-perm (Permᴰ.trans p q) = sort_by-perm p ∙ sort_by-perm q

module _ {ℓ} {A : Type ℓ} (lt : A → A → Bool) where
  -- No element comes before one that stands in front of it.
  abbrev pub IsSorted : List A → Type 0
  IsSorted [] = Unit
  IsSorted (x ∷ xs) = All (λ y. lt y x ≡ false) xs × IsSorted xs

  -- Each element comes before all those behind it.
  abbrev pub IsIncreasing : List A → Type 0
  IsIncreasing [] = Unit
  IsIncreasing (x ∷ xs) = All (λ y. lt x y ≡ true) xs × IsIncreasing xs

module _ {ℓ} {A : Type ℓ} {lt : A → A → Bool} (o : IsOrder lt) where
  le_le_trans : (a b c : A) → lt b a ≡ false → lt c b ≡ false → lt c a ≡ false
  le_le_trans a b c h k = elim (Bool-cases (lt c a)) [
    | inl e ↦ cc (le_lt_trans o b c a k e)
    | inr e ↦ e
  ]

module _ {ℓ} {A : Type ℓ} (lt : A → A → Bool) (P : A → Type 0) where
  pub insert_by-All : (e : A) (xs : List A) → P e → All P xs → All P (insert_by lt e xs)
  unfolding insert_by
  insert_by-All e [] h k = (h, tt)
  insert_by-All e (x ∷ xs) h (kx, k) =
      elim (lt x e) as (λ b. All P (elim b [ true ↦ x ∷ insert_by lt e xs | false ↦ e ∷ x ∷ xs ])) [
        | true ↦ (kx, insert_by-All e xs h k)
        | false ↦ (h, (kx, k))
      ]

  pub sort_by-All : (xs : List A) → All P xs → All P (sort_by lt xs)
  unfolding sort_by
  sort_by-All [] h = tt
  sort_by-All (x ∷ xs) (hx, h) = insert_by-All x (sort_by lt xs) hx (sort_by-All xs h)

module _ {ℓ} {A : Type ℓ} {lt : A → A → Bool} (o : IsOrder lt) where
  insert_by-IsSorted : (e : A) (xs : List A) → IsSorted lt xs → IsSorted lt (insert_by lt e xs)
  unfolding insert_by
  insert_by-IsSorted e [] h = (tt, tt)
  insert_by-IsSorted e (x ∷ xs) (hx, h) = elim (Bool-cases (lt x e)) [
    | inl below ↦
        rw (below, insert_by)
          (
            insert_by-All lt (λ y. lt y x ≡ false) e xs (o.asym x e below) hx,
            insert_by-IsSorted e xs h,
          )
    | inr above ↦
        rw (above, insert_by)
          (
            (
              above,
              All-mono (λ y. lt y x ≡ false) (λ y. lt y e ≡ false) xs
                  (λ y k. le_le_trans o e x y above k) hx,
            ),
            (hx, h),
          )
  ]

  pub sort_by-IsSorted : (xs : List A) → IsSorted lt (sort_by lt xs)
  unfolding sort_by
  sort_by-IsSorted [] = tt
  sort_by-IsSorted (x ∷ xs) = insert_by-IsSorted x (sort_by lt xs) (sort_by-IsSorted xs)

module _ {ℓ} {A : Type ℓ} (lt : A → A → Bool) (P : A → Type 0) where
  insert_by-All_inverse : (e : A) (xs : List A) → All P (insert_by lt e xs) → P e × All P xs
  unfolding insert_by
  insert_by-All_inverse e [] (h, k) = (h, tt)
  insert_by-All_inverse e (x ∷ xs) h = elim (Bool-cases (lt x e)) [
    | inl below ↦
        let h' : All P (x ∷ insert_by lt e xs) = rw (below, insert_by) at h in
        let (he, k) = insert_by-All_inverse e xs h'.1 in (he, (h'.0, k))
    | inr above ↦ let h' : All P (e ∷ x ∷ xs) = rw (above, insert_by) at h in (h'.0, h'.1)
  ]

  pub sort_by-All_inverse : (xs : List A) → All P (sort_by lt xs) → All P xs
  unfolding sort_by
  sort_by-All_inverse [] h = tt
  sort_by-All_inverse (x ∷ xs) h =
      let (hx, k) = insert_by-All_inverse x (sort_by lt xs) h in (hx, sort_by-All_inverse xs k)
