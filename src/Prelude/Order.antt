-- ===== src/Prelude/Order.antt =====
-- The byte order of `less` is a strict total order.
use mathlib.Core.Path.{◌≡◌, refl}
use mathlib.Core.Bool.{true, false}
use mathlib.Core.List.{[], ◌∷◌}
use native.Mathlib.Omega.{arith}
use bomwerk.Prelude.Sort.{IsOrder}
use bomwerk.Prelude.Strings.{Bytes, less}

less_asym : (s t : Bytes) → less s t ≡ true → less t s ≡ false
unfolding less
less_asym [] [] h = cc
less_asym [] (y ∷ t) h = refl
less_asym (x ∷ s) [] h = cc
less_asym (x ∷ s) (y ∷ t) h = ground (arith, less_asym s t)

less_trans : (s t u : Bytes) → less s t ≡ true → less t u ≡ true → less s u ≡ true
unfolding less
less_trans [] [] u h k = cc
less_trans [] (y ∷ t) [] h k = cc
less_trans [] (y ∷ t) (z ∷ u) h k = refl
less_trans (x ∷ s) [] u h k = cc
less_trans (x ∷ s) (y ∷ t) [] h k = cc
less_trans (x ∷ s) (y ∷ t) (z ∷ u) h k = ground (arith, less_trans s t u)

less_connex : (s t : Bytes) → less s t ≡ false → less t s ≡ false → s ≡ t
unfolding less
less_connex [] [] h k = refl
less_connex [] (y ∷ t) h k = cc
less_connex (x ∷ s) [] h k = cc
less_connex (x ∷ s) (y ∷ t) h k = ground (arith, less_connex s t)

pub less-IsOrder : IsOrder less
less-IsOrder = record { asym = less_asym; trans = less_trans; connex = less_connex }
