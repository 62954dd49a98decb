-- ===== src/Prelude/Bits.antt =====
-- The bit operations on native numbers: `|` of operands without a common bit, `&` with a mask of
-- ones; and the check of a test at every number below a bound.
use Prim.Native.Nat.{
  ℕ, zero, suc, ◌+◌, ◌*◌, ◌/◌, ◌%◌, ◌≤◌, ◌<◌, ◌^◌, min, max, bit_or, bit_and, digits, bitwise,
  bit_and-bitwise, bit_or-bitwise,
}
use mathlib.Core.Path.{◌≡◌, refl, ap, sym, ◌∙◌}
use mathlib.Core.Bool.{Bool, true, ◌&&◌}
use mathlib.Core.Logic.{◌⊎◌, inl, inr}
use native.Mathlib.Nat.{pow-suc}
use native.Mathlib.Omega.{arith}

-- The test passes at every number below the bound.
unfoldable pub holds_below : ℕ → (ℕ → Bool) → Bool
holds_below zero p = true
holds_below (suc bound) p = holds_below bound p && p bound

pub holds_below_lem :
    (bound : ℕ) (p : ℕ → Bool) (x : ℕ) → holds_below bound p ≡ true → x < bound → p x ≡ true
unfolding holds_below
holds_below_lem zero p x h small = absurd (omega arith)
holds_below_lem (suc bound) p x h small = ground (arith, holds_below_lem bound p x)

last_or_below : (a n : ℕ) → a ≤ suc n → (a ≡ suc n) ⊎ (a ≤ n)
last_or_below a n h = ground arith

-- The operations are recursions over binary digits, on fuel. From the first operand on, more fuel
-- changes nothing.
module _ (z : ℕ → ℕ) (f : ℕ → ℕ → ℕ) where
  digits_extra : (n a b : ℕ) → a ≤ n → digits z f (suc n) a b ≡ digits z f n a b
  digits_extra zero zero b h = refl
  digits_extra zero (suc a) b h = absurd (omega arith)
  digits_extra (suc n) zero b h = refl
  digits_extra (suc n) (suc a) b h =
      ap (λ t. t * 2 + f (suc a % 2) (b % 2)) (digits_extra n (suc a / 2) (b / 2) (omega arith))

  digits_settled : (n a b : ℕ) → a ≤ n → digits z f n a b ≡ bitwise z f a b
  digits_settled zero zero b h = refl
  digits_settled zero (suc a) b h = absurd (omega arith)
  digits_settled (suc n) a b h = elim (last_or_below a n h) [
    | inl e ↦ ap (λ m. digits z f m a b) (sym e)
    | inr le ↦ digits_extra n a b le ∙ digits_settled n a b le
  ]

  lowest_digit :
      (a b : ℕ)
      → bitwise z f (suc a) b ≡ bitwise z f (suc a / 2) (b / 2) * 2 + f (suc a % 2) (b % 2)
  lowest_digit a b =
      ap (λ t. t * 2 + f (suc a % 2) (b % 2)) (digits_settled a (suc a / 2) (b / 2) (omega arith))

pub zero-bit_or : (b : ℕ) → bit_or 0 b ≡ b
zero-bit_or b = bit_or-bitwise 0 b

digits-or_zero : (n a : ℕ) → a ≤ n → digits (λ y. y) max n a 0 ≡ a
digits-or_zero zero a h = omega arith
digits-or_zero (suc n) zero h = refl
digits-or_zero (suc n) (suc a) h = omega (arith, digits-or_zero n (suc a / 2) (omega arith))

bit_or-zero : (a : ℕ) → bit_or a 0 ≡ a
bit_or-zero a = bit_or-bitwise a 0 ∙ digits-or_zero a a (omega arith)

or_lowest : (a b : ℕ) → bit_or a b ≡ bit_or (a / 2) (b / 2) * 2 + max (a % 2) (b % 2)
or_lowest zero b = omega (arith, zero-bit_or b, zero-bit_or (b / 2))
or_lowest (suc a) b = omega (
  arith,
  bit_or-bitwise (suc a) b,
  bit_or-bitwise (suc a / 2) (b / 2),
  lowest_digit (λ y. y) max a b,
)

-- Two operands with no bit in common: the disjunction is the sum.
pub bit_or_disjoint : (k a b : ℕ) → b < 2 ^ k → bit_or (a * 2 ^ k) b ≡ a * 2 ^ k + b
bit_or_disjoint zero a b h =
    let none_left : b ≡ 0 = omega arith in rw none_left (omega (arith, bit_or-zero (a * 2 ^ 0)))
bit_or_disjoint (suc k) a b h =
    let twice : a * 2 ^ suc k ≡ a * 2 ^ k * 2 =
      omega (arith, ap (λ (t : ℕ). a * t) (pow-suc 2 k)) in
    let half : (a * 2 ^ suc k) / 2 ≡ a * 2 ^ k = omega arith in
    let small : b / 2 < 2 ^ k = omega (arith, pow-suc 2 k) in
    let upper : bit_or ((a * 2 ^ suc k) / 2) (b / 2) ≡ a * 2 ^ k + b / 2 =
      rw half (bit_or_disjoint k a (b / 2) small) in
    omega (arith, or_lowest (a * 2 ^ suc k) b)

-- the same, the lower operand first
pub bit_or_disjoint_below : (k a b : ℕ) → b < 2 ^ k → bit_or b (a * 2 ^ k) ≡ a * 2 ^ k + b
bit_or_disjoint_below zero a b h =
    let none_left : b ≡ 0 = omega arith in rw none_left (omega (arith, zero-bit_or (a * 2 ^ 0)))
bit_or_disjoint_below (suc k) a b h =
    let twice : a * 2 ^ suc k ≡ a * 2 ^ k * 2 =
      omega (arith, ap (λ (t : ℕ). a * t) (pow-suc 2 k)) in
    let half : (a * 2 ^ suc k) / 2 ≡ a * 2 ^ k = omega arith in
    let small : b / 2 < 2 ^ k = omega (arith, pow-suc 2 k) in
    let upper : bit_or (b / 2) ((a * 2 ^ suc k) / 2) ≡ a * 2 ^ k + b / 2 =
      rw half (bit_or_disjoint_below k a (b / 2) small) in
    omega (arith, or_lowest b (a * 2 ^ suc k))

digits-and_zero : (n a : ℕ) → digits (λ y. 0) min n a 0 ≡ 0
digits-and_zero zero a = refl
digits-and_zero (suc n) zero = refl
digits-and_zero (suc n) (suc a) = omega (arith, digits-and_zero n (suc a / 2))

bit_and-no_bits : (a : ℕ) → bit_and a 0 ≡ 0
bit_and-no_bits a = bit_and-bitwise a 0 ∙ digits-and_zero a a

and_lowest : (a b : ℕ) → bit_and a b ≡ bit_and (a / 2) (b / 2) * 2 + min (a % 2) (b % 2)
and_lowest zero b = omega (arith, bit_and-bitwise 0 b, bit_and-bitwise 0 (b / 2))
and_lowest (suc a) b = omega (
  arith,
  bit_and-bitwise (suc a) b,
  bit_and-bitwise (suc a / 2) (b / 2),
  lowest_digit (λ y. 0) min a b,
)

-- From the lowest bits up, a mask of ones gives the remainder.
bit_and_0x01 : (a : ℕ) → bit_and a 0x01 ≡ a % 2
bit_and_0x01 a = omega (arith, and_lowest a 0x01, bit_and-no_bits (a / 2))

pub bit_and_0x03 : (a : ℕ) → bit_and a 0x03 ≡ a % 4
bit_and_0x03 a = omega (arith, and_lowest a 0x03, bit_and_0x01 (a / 2))

bit_and_0x07 : (a : ℕ) → bit_and a 0x07 ≡ a % 8
bit_and_0x07 a = omega (arith, and_lowest a 0x07, bit_and_0x03 (a / 2))

pub bit_and_0x0F : (a : ℕ) → bit_and a 0x0F ≡ a % 16
bit_and_0x0F a = omega (arith, and_lowest a 0x0F, bit_and_0x07 (a / 2))

bit_and_0x1F : (a : ℕ) → bit_and a 0x1F ≡ a % 32
bit_and_0x1F a = omega (arith, and_lowest a 0x1F, bit_and_0x0F (a / 2))

pub bit_and_0x3F : (a : ℕ) → bit_and a 0x3F ≡ a % 64
bit_and_0x3F a = omega (arith, and_lowest a 0x3F, bit_and_0x1F (a / 2))
