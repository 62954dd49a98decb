-- ===== src/Prelude/Words.antt =====
-- 32-bit words and their four bytes, the highest first, and the writes of an array.
use Prim.Native.Nat.{ℕ, suc, ◌+◌, ◌-◌, ◌*◌, ◌/◌, ◌%◌, ◌^◌, ◌≤◌, bit_or}
use mathlib.Core.Path.{◌≡◌, ap, ◌∙◌}
use mathlib.Core.List.{List, [], ◌∷◌, ◌++◌}
use native.Mathlib.Omega.{arith}
use bomwerk.Prelude.Lists.{length, get_or, take, drop, length-append, length-take, length-drop}
use bomwerk.Prelude.Strings.{Bytes, take-length-append}

-- The value of a std::uint32_t computation.
abbrev pub wrap32 : ℕ → ℕ
wrap32 n = n % 2 ^ 32

-- ~word
abbrev pub complement32 : ℕ → ℕ
complement32 word = 2 ^ 32 - 1 - word

-- Four bytes of a buffer as a word.
unfoldable pub load_word : Bytes → ℕ → ℕ
load_word bytes offset =
    bit_or
      (bit_or (bit_or (get_or bytes offset 0 * 2 ^ 24) (get_or bytes (offset + 1) 0 * 2 ^ 16))
        (get_or bytes (offset + 2) 0 * 2 ^ 8))
      (get_or bytes (offset + 3) 0)

-- A word as four bytes.
unfoldable pub word_bytes : ℕ → Bytes
word_bytes word = word / 2 ^ 24 % 256 ∷ word / 2 ^ 16 % 256 ∷ word / 2 ^ 8 % 256 ∷ word % 256 ∷ []

-- std::copy_n into an array from a position on
abbrev pub overwrite {ℓ} : {A : Type ℓ} → List A → ℕ → List A → List A
overwrite old position new = take position old ++ (new ++ drop (position + length new) old)

module _ {ℓ} {A : Type ℓ} where
  pub length-overwrite :
      (old : List A) (position : ℕ) (new : List A)
      → position + length new ≤ length old
      → length (overwrite old position new) ≡ length old
  length-overwrite old position new h = omega (
    arith,
    length-append (take position old) (new ++ drop (position + length new) old),
    length-append new (drop (position + length new) old),
    length-take position old,
    length-drop (position + length new) old,
  )

  take-past : (a b : List A) (n : ℕ) → take (length a + n) (a ++ b) ≡ a ++ take n b
  take-past [] b n = ap (λ (k : ℕ). take k b) (omega arith)
  take-past (x ∷ a) b n =
      let next : suc (length a) + n ≡ suc (length a + n) = omega arith in
      rw next (ap (λ t. x ∷ t) (take-past a b n))

  -- What stands before the end of the write.
  pub take-overwrite :
      (old : List A) (position : ℕ) (new : List A)
      → position ≤ length old
      → take (position + length new) (overwrite old position new) ≡ take position old ++ new
  take-overwrite old position new h =
      let front : position ≡ length (take position old) = omega (arith, length-take position old) in
      let rest = new ++ drop (position + length new) old in
      let at : position + length new ≡ length (take position old) + length new = omega arith in
      ap (λ (n : ℕ). take n (take position old ++ rest)) at
      ∙ take-past (take position old) rest (length new)
      ∙ ap (λ t. take position old ++ t) (take-length-append new (drop (position + length new) old))
