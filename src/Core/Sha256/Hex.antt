-- ===== src/Core/Sha256/Hex.antt =====
-- The digest as text, `to_hex` and `sha256_from_hex` of src/core/sha256.cpp.
use mathlib.Core.Option
use bomwerk.Prelude.{
  ℕ, ◌+◌, ◌-◌, ◌*◌, ◌/◌, ◌^◌, ◌<◌, ◌≡◌, refl, sym, ap, ap₂, ◌∙◌, ◌↔◌, true, false, ◌||◌, inl, inr,
  Option, none, some, [], ◌∷◌, arith, Bytes, IsByte, All, Bool-cases, ltb, ◌==◌, ==_iff, length,
  get_or, bit_and, bit_or, bit_or_disjoint, subst, bit_and_0x0F, holds_below, holds_below_lem,
}
use bomwerk.Core.Sha256.{to_hex, lowercase_hex_value, hex_pairs, sha256_from_hex, hex_digits}

abbrev digit : ℕ → ℕ
digit v = get_or hex_digits v 0

digit_table : holds_below 16 (λ v. lowercase_hex_value (digit v) == v) ≡ true
unfolding holds_below lowercase_hex_value
digit_table = refl

lowercase_hex_value-digit : (v : ℕ) → v < 16 → lowercase_hex_value (digit v) ≡ v
lowercase_hex_value-digit v h =
    (==_iff (lowercase_hex_value (digit v)) v).0
      (holds_below_lem 16 (λ x. lowercase_hex_value (digit x) == x) v digit_table h)

value_table :
    holds_below 128 (λ c. ltb 15 (lowercase_hex_value c) || digit (lowercase_hex_value c) == c)
    ≡ true
unfolding holds_below lowercase_hex_value
value_table = refl

hex_digit_below : (c : ℕ) → lowercase_hex_value c < 16 → c < 128
unfolding lowercase_hex_value
hex_digit_below c h = ground arith

digit-lowercase_hex_value : (c : ℕ) → lowercase_hex_value c < 16 → digit (lowercase_hex_value c) ≡ c
digit-lowercase_hex_value c h =
    let row =
      holds_below_lem 128
        (λ x. ltb 15 (lowercase_hex_value x) || digit (lowercase_hex_value x) == x) c value_table
        (hex_digit_below c h) in
    let small : ltb 15 (lowercase_hex_value c) ≡ false = ground arith in
    (==_iff (digit (lowercase_hex_value c)) c).0 (rw small at row)

pair_step :
    (p q high low : ℕ) (s : Bytes)
    → lowercase_hex_value p ≡ high
    → lowercase_hex_value q ≡ low
    → high < 16
    → low < 16
    → hex_pairs (p ∷ q ∷ s) ≡ Option.map (λ t. bit_or (high * 2 ^ 4) low ∷ t) (hex_pairs s)
unfolding hex_pairs
pair_step p q high low s hp hq h l = ground arith

pair_refused :
    (p q : ℕ) (s : Bytes)
    → (ltb 15 (lowercase_hex_value p) || ltb 15 (lowercase_hex_value q)) ≡ true
    → hex_pairs (p ∷ q ∷ s) ≡ none
unfolding hex_pairs
pair_refused p q s h = rw (h, hex_pairs)

hex_pairs_nil : hex_pairs [] ≡ some []
unfolding hex_pairs
hex_pairs_nil = refl

joined_digits : (b : ℕ) → bit_or (b / 2 ^ 4 * 2 ^ 4) (bit_and b 0x0F) ≡ b
joined_digits b =
    let low : bit_and b 0x0F < 2 ^ 4 = omega (arith, bit_and_0x0F b) in
    omega (arith, bit_or_disjoint 4 (b / 2 ^ 4) (bit_and b 0x0F) low, bit_and_0x0F b)

length-to_hex : (d : Bytes) → length (to_hex d) ≡ length d * 2
unfolding to_hex
length-to_hex [] = refl
length-to_hex (b ∷ d) = omega (arith, length-to_hex d)

hex_pairs-to_hex : (d : Bytes) → All IsByte d → hex_pairs (to_hex d) ≡ some d
unfolding to_hex
hex_pairs-to_hex [] h = hex_pairs_nil
hex_pairs-to_hex (b ∷ d) (hb, h) =
    let low : bit_and b 0x0F < 16 = omega (arith, bit_and_0x0F b) in
    pair_step (digit (b / 2 ^ 4)) (digit (bit_and b 0x0F)) (b / 2 ^ 4) (bit_and b 0x0F) (to_hex d)
      (lowercase_hex_value-digit (b / 2 ^ 4) (omega arith))
      (lowercase_hex_value-digit (bit_and b 0x0F) low) (omega arith) low
    ∙ ap (Option.map _) (hex_pairs-to_hex d h)
    ∙ ap (λ t. some (t ∷ d)) (joined_digits b)

-- The digits stand for the bytes.
abbrev Spells : Bytes → Bytes → Type 0
Spells t d = (t ≡ to_hex d) × All IsByte d

pair_Spells :
    (p q high low : ℕ) (s d : Bytes)
    → lowercase_hex_value p ≡ high
    → lowercase_hex_value q ≡ low
    → high < 16
    → low < 16
    → Spells s d
    → Spells (p ∷ q ∷ s) (bit_or (high * 2 ^ 4) low ∷ d)
unfolding to_hex
pair_Spells p q high low s d hp hq h l (e, bytes) =
    let joined : bit_or (high * 2 ^ 4) low ≡ high * 2 ^ 4 + low = bit_or_disjoint 4 high low l in
    let upper : bit_or (high * 2 ^ 4) low / 2 ^ 4 ≡ lowercase_hex_value p = omega arith in
    let lower : bit_and (bit_or (high * 2 ^ 4) low) 0x0F ≡ lowercase_hex_value q =
      omega (arith, bit_and_0x0F (bit_or (high * 2 ^ 4) low)) in
    (
      sym (
          ap₂ (λ a b. digit a ∷ digit b ∷ to_hex d) upper lower
          ∙ ap₂ (λ a b. a ∷ b ∷ to_hex d) (digit-lowercase_hex_value p (omega arith))
              (digit-lowercase_hex_value q (omega arith))
          ∙ ap (λ r. p ∷ q ∷ r) (sym e)),
      (omega arith, bytes),
    )

read_and_kept :
    {x : ℕ} (o : Option Bytes) (d : Bytes)
    → Option.map (λ t. x ∷ t) o ≡ some d
    → (t : Bytes) × (o ≡ some t) × (x ∷ t ≡ d)
read_and_kept none d h = absurd (ground arith)
read_and_kept (some t) d h = (t, refl, ground arith)

hex_pairs-Spells : (n : ℕ) (t d : Bytes) → length t ≡ n * 2 → hex_pairs t ≡ some d → Spells t d
unfolding to_hex
hex_pairs-Spells n [] d size h =
    let e : [] ≡ d = ground (arith, hex_pairs_nil) in subst (Spells []) e (refl, tt)
hex_pairs-Spells n (p ∷ []) d size h = absurd (omega arith)
hex_pairs-Spells n (p ∷ q ∷ s) d size h =
    let refused = ltb 15 (lowercase_hex_value p) || ltb 15 (lowercase_hex_value q) in
    elim (Bool-cases refused) [
      | inl bad ↦ absurd (ground (arith, pair_refused p q s bad))
      | inr good ↦
          let high : lowercase_hex_value p < 16 = ground arith in
          let low : lowercase_hex_value q < 16 = ground arith in
          let step =
            pair_step p q (lowercase_hex_value p) (lowercase_hex_value q) s refl refl high low in
          let (t, read, e) = read_and_kept (hex_pairs s) d (sym step ∙ h) in
          subst (Spells (p ∷ q ∷ s)) e (
            pair_Spells p q (lowercase_hex_value p) (lowercase_hex_value q) s t refl refl high low
              (hex_pairs-Spells (n - 1) s t (omega arith) read))
    ]

sized_only : (t d : Bytes) → sha256_from_hex t ≡ some d → (length t ≡ 64) × (hex_pairs t ≡ some d)
unfolding sha256_from_hex
sized_only t d h = elim (Bool-cases (length t == 64)) [
  | inl e ↦ ((==_iff (length t) 64).0 e, rw e at h)
  | inr e ↦ absurd (ground arith)
]

sized : (t : Bytes) → length t ≡ 64 → sha256_from_hex t ≡ hex_pairs t
unfolding sha256_from_hex
sized t e = rw ((==_iff (length t) 64).1 e)

-- A text is read as a digest exactly when it is the lowercase spelling that `to_hex` gives of 32 bytes:
-- every digest is read back, and no digest has a second spelling.
pub sha256_from_hex_iff :
    (t d : Bytes) → (sha256_from_hex t ≡ some d) ↔ ((length d ≡ 32) × All IsByte d × (t ≡ to_hex d))
sha256_from_hex_iff t d = (
  λ h.
      let (size, read) = sized_only t d h in
      let (e, bytes) = hex_pairs-Spells 32 t d size read in
      (omega (arith, length-to_hex d, ap length e, size), bytes, e),
  λ (size, bytes, e).
      sized t (ap length e ∙ omega (arith, length-to_hex d))
      ∙ ap hex_pairs e
      ∙ hex_pairs-to_hex d bytes,
)
