-- ===== src/Core/Sha256/Blocks.antt =====
-- The block loop of src/core/sha256.cpp against the fold of the compression over a count of blocks.
use bomwerk.Prelude.{
  ℕ, zero, suc, ◌+◌, ◌-◌, ◌*◌, ◌/◌, ◌≤◌, ◌<◌, ◌⊎◌, le→leb, ◌≡◌, refl, ap, false, inl, inr, List, [],
  ◌∷◌, ◌++◌, arith, Bytes, leb, length, take, drop, length-drop,
}
use bomwerk.Core.Sha256.{Registers, compress_block, compress_blocks}

module _ {ℓ} {A : Type ℓ} where
  drop-nil : (n : ℕ) → drop {A = A} n [] ≡ []
  drop-nil zero = refl
  drop-nil (suc n) = refl

  pub drop-drop : (j k : ℕ) (m : List A) → drop k (drop j m) ≡ drop (j + k) m
  drop-drop zero k m = ap (λ (i : ℕ). drop i m) (omega arith)
  drop-drop (suc j) k [] = let next : suc j + k ≡ suc (j + k) = omega arith in rw (next, drop-nil k)
  drop-drop (suc j) k (x ∷ m) =
      let next : suc j + k ≡ suc (j + k) = omega arith in rw next (drop-drop j k m)

  pub drop-append : (n : ℕ) (m x : List A) → n ≤ length m → drop n (m ++ x) ≡ drop n m ++ x
  drop-append zero m x h = refl
  drop-append (suc n) [] x h = absurd (omega arith)
  drop-append (suc n) (y ∷ m) x h = drop-append n m x (omega arith)

  pub take-append : (n : ℕ) (m x : List A) → n ≤ length m → take n (m ++ x) ≡ take n m
  take-append zero m x h = refl
  take-append (suc n) [] x h = absurd (omega arith)
  take-append (suc n) (y ∷ m) x h = ap (λ t. y ∷ t) (take-append n m x (omega arith))

  pub drop_all : (n : ℕ) (m : List A) → length m ≤ n → drop n m ≡ []
  drop_all zero [] h = refl
  drop_all zero (x ∷ m) h = absurd (omega arith)
  drop_all (suc n) [] h = refl
  drop_all (suc n) (x ∷ m) h = drop_all n m (omega arith)

-- The compression of a number of blocks from the front of a text.
unfoldable pub fold_blocks : ℕ → Registers → Bytes → Registers
fold_blocks zero r m = r
fold_blocks (suc n) r m = fold_blocks n (compress_block r (take 64 m)) (drop 64 m)

le_or_lt : (n m : ℕ) → (n ≤ m) ⊎ (m < n)
le_or_lt n m = ground arith

lt→not-leb : {n m : ℕ} → m < n → leb n m ≡ false
lt→not-leb h = ground arith

pub fold_blocks-append :
    (n : ℕ) (r : Registers) (m x : Bytes)
    → n * 64 ≤ length m
    → fold_blocks n r (m ++ x) ≡ fold_blocks n r m
unfolding fold_blocks
fold_blocks-append zero r m x h = refl
fold_blocks-append (suc n) r m x h =
    let whole : 64 ≤ length m = omega arith in
    rw (take-append 64 m x whole, drop-append 64 m x whole)
      (fold_blocks-append n (compress_block r (take 64 m)) (drop 64 m) x
        (omega (arith, length-drop 64 m)))

pub fold_blocks-add :
    (n k : ℕ) (r : Registers) (m : Bytes)
    → fold_blocks (n + k) r m ≡ fold_blocks k (fold_blocks n r m) (drop (n * 64) m)
unfolding fold_blocks
fold_blocks-add zero k r m = let same : 0 + k ≡ k = omega arith in rw same
fold_blocks-add (suc n) k r m =
    let next : suc n + k ≡ suc (n + k) = omega arith in
    let further : suc n * 64 ≡ 64 + n * 64 = omega arith in
    rw (next, further, ← drop-drop 64 (n * 64) m)
      (fold_blocks-add n k (compress_block r (take 64 m)) (drop 64 m))

more_blocks :
    (fuel : ℕ) (r : Registers) (m : Bytes)
    → 64 ≤ length m
    → compress_blocks (suc fuel) r m
      ≡ compress_blocks fuel (compress_block r (take 64 m)) (drop 64 m)
unfolding compress_blocks
more_blocks fuel r m h = rw (le→leb 64 (length m) h, compress_blocks)

no_more_blocks :
    (fuel : ℕ) (r : Registers) (m : Bytes) → length m < 64 → compress_blocks (suc fuel) r m ≡ (r, m)
unfolding compress_blocks
no_more_blocks fuel r m h = rw (lt→not-leb h, compress_blocks)

no_blocks :
    (r : Registers)
    → compress_blocks 0 r [] ≡ (fold_blocks (0 / 64) r [], drop {A = ℕ} (0 / 64 * 64) [])
unfolding compress_blocks fold_blocks
no_blocks r = refl

-- The loop ends by its test, having compressed every whole block.
pub compress_blocks_lem :
    (fuel : ℕ) (r : Registers) (m : Bytes)
    → length m ≤ fuel
    → compress_blocks fuel r m ≡ (fold_blocks (length m / 64) r m, drop (length m / 64 * 64) m)
unfolding fold_blocks
compress_blocks_lem zero r [] h = no_blocks r
compress_blocks_lem zero r (x ∷ m) h = absurd (omega arith)
compress_blocks_lem (suc fuel) r m h = elim (le_or_lt 64 (length m)) [
  | inl enough ↦
      let rest = drop 64 m in
      let size : length rest ≡ length m - 64 = length-drop 64 m in
      let count : length m / 64 ≡ suc (length rest / 64) = omega arith in
      let further : suc (length rest / 64) * 64 ≡ 64 + length rest / 64 * 64 = omega arith in
      let once = compress_blocks_lem fuel (compress_block r (take 64 m)) rest (omega arith) in
      rw (more_blocks fuel r m enough, count, further, ← drop-drop 64 (length rest / 64 * 64) m)
        once
  | inr short ↦
      let count : length m / 64 ≡ 0 = omega arith in rw (no_more_blocks fuel r m short, count)
]
