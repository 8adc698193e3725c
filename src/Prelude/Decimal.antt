-- ===== src/Prelude/Decimal.antt =====
-- Numbers as text: `%d` and strconv.Itoa.
use Prim.Native.Nat.{ℕ, zero, suc, ◌/◌, ◌%◌}
use Prim.Native.String.{String}
use mathlib.Core.List.{List, [], ◌∷◌}
use capo_shell_mcp.Prelude.Tests.{ltb, if◌then◌else◌}
use capo_shell_mcp.Prelude.Text.{◌⊕◌}
use capo_shell_mcp.Prelude.Int.{ℤ, pos, negsuc}

abbrev digits : List String
digits = "0" ∷ "1" ∷ "2" ∷ "3" ∷ "4" ∷ "5" ∷ "6" ∷ "7" ∷ "8" ∷ "9" ∷ []

abbrev nth : List String → ℕ → String
nth [] i = ""
nth (x ∷ xs) zero = x
nth (x ∷ xs) (suc i) = nth xs i

-- The fuel is more than the number of digits.
pub decimal_from : ℕ → ℕ → String
decimal_from zero n = ""
decimal_from (suc fuel) n =
    let rest = decimal_from fuel (n / 10) in
    if ltb n 10 then nth digits n else (rest ⊕ nth digits (n % 10))

unfoldable pub decimal : ℕ → String
unfolding decimal_from
decimal n = decimal_from (suc n) n

unfoldable pub decimal_int : ℤ → String
unfolding decimal
decimal_int (pos n) = decimal n
decimal_int (negsuc n) = "-" ⊕ decimal (suc n)
