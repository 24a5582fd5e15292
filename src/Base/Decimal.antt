-- ===== src/Base/Decimal.antt =====
-- A number's decimal digits, as the character codes that String(n) has.
use Prim.Native.Nat.{ℕ, zero, suc, ◌+◌, ◌/◌, ◌%◌}
use mathlib.Core.Bool.{true, false}
use mathlib.Core.List.{List, [], ◌∷◌}
use minipg.Base.Tests.{ltb}

-- A number n has at most n + 1 digits, which is the fuel.
unfoldable pub digits : ℕ → ℕ → List ℕ → List ℕ
digits zero n acc = acc
digits (suc fuel) n acc = elim (ltb n 10) [
  | true ↦ (b'0' + n) ∷ acc
  | false ↦ digits fuel (n / 10) ((b'0' + n % 10) ∷ acc)
]

unfoldable pub decimal : ℕ → List ℕ
decimal n = digits (suc n) n []
