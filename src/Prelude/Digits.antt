-- ===== src/Prelude/Digits.antt =====
-- Numbers in decimal.
use Prim.Native.Nat.{ℕ, zero, suc, ◌+◌, ◌/◌, ◌%◌}
use mathlib.Core.Bool.{true, false}
use mathlib.Core.List.{[], ◌∷◌, ◌++◌}
use bomwerk.Prelude.Tests.{ltb}
use bomwerk.Prelude.Strings.{Bytes}

-- std::to_string; a number has no more digits than its value and one.
unfoldable pub decimal_digits : ℕ → ℕ → Bytes
decimal_digits zero n = []
decimal_digits (suc fuel) n = elim (ltb n 10) [
  | true ↦ (b'0' + n) ∷ []
  | false ↦ decimal_digits fuel (n / 10) ++ (b'0' + n % 10) ∷ []
]

abbrev pub to_text : ℕ → Bytes
to_text n = decimal_digits (suc n) n
