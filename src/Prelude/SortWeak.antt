-- ===== src/Prelude/SortWeak.antt =====
-- std::sort by an order that does not tell all elements apart: the result is sorted and is the input
-- in another order.
use mathlib.Core.Path.{◌≡◌, refl}
use mathlib.Core.Logic.{inl, inr}
use mathlib.Core.Bool.{Bool, true, false}
use mathlib.Core.List.{List, [], ◌∷◌}
use mathlib.Core.List.Permᴰ
use mathlib.Core.List.{Permᴰ}
use bomwerk.Prelude.Tests.{Bool-cases}
use bomwerk.Prelude.Lists.{All-mono}
use bomwerk.Prelude.Sort.{IsSorted, insert_by, sort_by, insert_by-All}

pub record IsWeakOrder {ℓ} {A : Type ℓ} (lt : A → A → Bool) : Type ℓ where
  pub asym : (a b : A) → lt a b ≡ true → lt b a ≡ false
  pub le_trans : (a b c : A) → lt b a ≡ false → lt c b ≡ false → lt c a ≡ false

module _ {ℓ} {A : Type ℓ} (lt : A → A → Bool) where
  insert_by-Permᴰ : (e : A) (xs : List A) → Permᴰ (insert_by lt e xs) (e ∷ xs)
  unfolding insert_by
  insert_by-Permᴰ e [] = Permᴰ.refl (e ∷ [])
  insert_by-Permᴰ e (x ∷ xs) =
      elim (lt x e)
        as (λ b.
          Permᴰ (elim b [ true ↦ x ∷ insert_by lt e xs | false ↦ e ∷ x ∷ xs ]) (e ∷ x ∷ xs)) [
            | true ↦ Permᴰ.trans (Permᴰ.cons refl (insert_by-Permᴰ e xs)) (Permᴰ.swap refl refl)
            | false ↦ Permᴰ.refl (e ∷ x ∷ xs)
          ]

  pub sort_by-Permᴰ : (xs : List A) → Permᴰ (sort_by lt xs) xs
  unfolding sort_by
  sort_by-Permᴰ [] = Permᴰ.nil
  sort_by-Permᴰ (x ∷ xs) =
      Permᴰ.trans (insert_by-Permᴰ x (sort_by lt xs)) (Permᴰ.cons refl (sort_by-Permᴰ xs))

module _ {ℓ} {A : Type ℓ} {lt : A → A → Bool} (o : IsWeakOrder lt) where
  insert_weak-IsSorted : (e : A) (xs : List A) → IsSorted lt xs → IsSorted lt (insert_by lt e xs)
  unfolding insert_by
  insert_weak-IsSorted e [] h = (tt, tt)
  insert_weak-IsSorted e (x ∷ xs) (hx, h) = elim (Bool-cases (lt x e)) [
    | inl below ↦
        rw (below, insert_by)
          (
            insert_by-All lt (λ y. lt y x ≡ false) e xs (o.asym x e below) hx,
            insert_weak-IsSorted e xs h,
          )
    | inr above ↦
        rw (above, insert_by)
          (
            (
              above,
              All-mono (λ y. lt y x ≡ false) (λ y. lt y e ≡ false) xs
                  (λ y k. o.le_trans e x y above k) hx,
            ),
            (hx, h),
          )
  ]

  pub sort_weak-IsSorted : (xs : List A) → IsSorted lt (sort_by lt xs)
  unfolding sort_by
  sort_weak-IsSorted [] = tt
  sort_weak-IsSorted (x ∷ xs) = insert_weak-IsSorted x (sort_by lt xs) (sort_weak-IsSorted xs)
