-- ===== src/Config/Env.antt =====
-- `expandEnv`: the matches of `\$\{([^}]+)\}|\$([A-Za-z_][A-Za-z0-9_]*)` from the left, each
-- replaced by the variable's value. `getenv` is the environment ("" for a variable not set).
pub mod Laws
pub mod Forms
pub mod Expansion
use Prim.Native.Char.{Char, code}
use capo_shell_mcp.Prelude.{
  ℕ, zero, suc, String, ◌⊕◌, Bool, true, false, ◌&&◌, ◌||◌, Option, none, some, eqb, leb, ◌==◌,
  if◌then◌else◌,
}

abbrev pub size : String → ℕ
size String.[] = 0
size (String.◌∷◌ c s) = suc (size s)

abbrev starts_name : ℕ → Bool
starts_name c = (leb b'A' c && leb c b'Z') || ((leb b'a' c && leb c b'z') || eqb c b'_')

abbrev continues_name : ℕ → Bool
continues_name c = starts_name c || (leb b'0' c && leb c b'9')

abbrev cons_name : Char → Option (String × String) → Option (String × String)
cons_name c none = none
cons_name c (some (name, rest)) = some (String.◌∷◌ c name, rest)

-- The text up to the first `}`, and the text after it.
unfoldable pub to_brace : String → Option (String × String)
to_brace String.[] = none
to_brace (String.◌∷◌ c s) =
    let more = cons_name c (to_brace s) in if eqb (code c) b'}' then some ("", s) else more

abbrev not_empty : Option (String × String) → Option (String × String)
not_empty none = none
not_empty (some (name, rest)) = if name == "" then none else some (name, rest)

-- The longest run of characters that may stand in a name, and what follows.
abbrev cons_run : Char → String × String → String × String
cons_run c (name, rest) = (String.◌∷◌ c name, rest)

unfoldable pub name_run : String → String × String
name_run String.[] = ("", "")
name_run (String.◌∷◌ c s) =
    let more = cons_run c (name_run s) in
    if continues_name (code c) then more else ("", String.◌∷◌ c s)

-- The name that a match has whose `$` is in front of this text, and the text after the match.
unfoldable pub variable : String → Option (String × String)
unfolding to_brace name_run
variable String.[] = none
variable (String.◌∷◌ c s) =
    if eqb (code c) b'{'
    then not_empty (to_brace s)
    else if starts_name (code c)
    then some (cons_run c (name_run s))
    else none

module _ (getenv : String → String) where
  unfoldable pub expand : ℕ → String → String
  unfolding variable
  expand zero s = s
  expand (suc fuel) String.[] = ""
  expand (suc fuel) (String.◌∷◌ c s) =
      if eqb (code c) b'$'
      then (elim (variable s) [
        | none ↦ String.◌∷◌ c (expand fuel s)
        | some (name, rest) ↦ getenv name ⊕ expand fuel rest
      ])
      else String.◌∷◌ c (expand fuel s)

  unfoldable pub expand_env : String → String
  unfolding expand
  expand_env s = expand (suc (size s)) s
