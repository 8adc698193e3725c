-- ===== src/Prelude/Sort.antt =====
-- sort.Strings, by code points, and the keys of a map.
use Prim.Native.String.{String, compare}
use Prim.Native.Nat.{lt, eq, gt}
use mathlib.Core.List.{List, [], ◌∷◌}
use capo_shell_mcp.Prelude.Dict.{Map}

abbrev pub insert_name : String → List String → List String
insert_name n [] = n ∷ []
insert_name n (m ∷ ms) =
    let rest = insert_name n ms in
    elim (compare n m) [ gt ↦ m ∷ rest | eq ↦ n ∷ m ∷ ms | lt ↦ n ∷ m ∷ ms ]

unfoldable pub sort_names : List String → List String
sort_names [] = []
sort_names (n ∷ ns) = insert_name n (sort_names ns)

abbrev pub keys {ℓ} : {V : Type ℓ} → Map V → List String
keys [] = []
keys ((k, _) ∷ m) = k ∷ keys m
