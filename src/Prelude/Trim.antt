-- ===== src/Prelude/Trim.antt =====
-- strings.TrimSpace: the code points of Unicode's White_Space.
use Prim.Native.Char.{Char, code}
use Prim.Native.Nat.{ℕ}
use Prim.Native.String.{String}
use mathlib.Core.Bool.{Bool, ◌&&◌, ◌||◌}
use text.Mathlib.Text.{◌==◌}
use capo_shell_mcp.Prelude.Tests.{eqb, leb, if◌then◌else◌}

abbrev between : ℕ → ℕ → ℕ → Bool
between lo hi c = leb lo c && leb c hi

unfoldable pub is_space : ℕ → Bool
is_space c =
    between 9 13 c
    || (eqb c 32
        || (eqb c 133
            || (eqb c 160
                || (eqb c 5760
                    || (between 8192 8202 c
                        || (between 8232 8233 c || (eqb c 8239 || (eqb c 8287 || eqb c 12288))))))))

unfoldable pub trim_left : String → String
unfolding is_space
trim_left String.[] = ""
trim_left (String.◌∷◌ c s) =
    let rest = trim_left s in if is_space (code c) then rest else String.◌∷◌ c s

abbrev cons_kept : Char → String → String
cons_kept c t =
    if t == "" then (if is_space (code c) then "" else String.◌∷◌ c t) else String.◌∷◌ c t

unfoldable pub trim_right : String → String
trim_right String.[] = ""
trim_right (String.◌∷◌ c s) = cons_kept c (trim_right s)

unfoldable pub trim_space : String → String
unfolding trim_left trim_right
trim_space s = trim_right (trim_left s)
