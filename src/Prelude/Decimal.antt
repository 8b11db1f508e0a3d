-- ===== src/Prelude/Decimal.antt =====
-- Decimal text of a natural number, as JavaScript's `String(n)` and JSON write it.
use Prim.Native.Nat.{ℕ, zero, suc, ◌+◌, ◌/◌, ◌%◌}
use mathlib.Core.List.{[], ◌∷◌, ◌++◌}
use wireless_gateway.Prelude.Tests.{ltb}
use wireless_gateway.Prelude.Texts.{Text}
use mathlib.Core.Bool.{true, false}

-- A number below `fuel` has fewer digits than `fuel`.
decimal_fuel : ℕ → ℕ → Text
decimal_fuel zero n = []
decimal_fuel (suc fuel) n = elim (ltb n 10) [
  | true ↦ (b'0' + n) ∷ []
  | false ↦ decimal_fuel fuel (n / 10) ++ (b'0' + n % 10) ∷ []
]

unfoldable pub decimal : ℕ → Text
unfolding decimal_fuel
decimal n = decimal_fuel (suc n) n
