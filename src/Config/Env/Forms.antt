-- ===== src/Config/Env/Forms.antt =====
-- The two forms of a reference, and text without one.
use Prim.Native.Char.{Char, code}
use text.Mathlib.TextLemmas.{nil-append, cons-append}
use capo_shell_mcp.Prelude.{
  ℕ, suc, ◌<◌, ◌≡◌, ◌≢◌, ◌∙◌, refl, sym, ap, String, ◌⊕◌, true, false, some, eqb, arith, eq_of_ne,
}
use capo_shell_mcp.Config.Env.{
  size, starts_name, continues_name, to_brace, name_run, variable, expand_env,
}
use capo_shell_mcp.Config.Env.Laws.{expand_fuel, variable-Below}

-- No character of the text is the one with this code.
abbrev pub Without : ℕ → String → Type 0
Without k String.[] = Unit
Without k (String.◌∷◌ c s) = (eqb (code c) k ≡ false) × Without k s

abbrev pub AllContinue : String → Type 0
AllContinue String.[] = Unit
AllContinue (String.◌∷◌ c s) = (continues_name (code c) ≡ true) × AllContinue s

abbrev pub EndsName : String → Type 0
EndsName String.[] = Unit
EndsName (String.◌∷◌ c s) = continues_name (code c) ≡ false

to_brace-append :
    (name rest : String) → Without b'}' name → to_brace (name ⊕ ("}" ⊕ rest)) ≡ some (name, rest)
unfolding to_brace
to_brace-append String.[] rest h =
    ap to_brace (nil-append _ ∙ cons-append "}" "" rest ∙ ap (String.◌∷◌ "}") (nil-append rest))
to_brace-append (String.◌∷◌ c name) rest h =
    ap to_brace (cons-append c name _) ∙ rw (h.0, to_brace-append name rest h.1)

name_run-append :
    (name rest : String) → AllContinue name → EndsName rest → name_run (name ⊕ rest) ≡ (name, rest)
unfolding name_run
name_run-append String.[] String.[] h k = ap name_run (nil-append "")
name_run-append String.[] (String.◌∷◌ c rest) h k =
    ap name_run {y = String.◌∷◌ c rest} (nil-append _) ∙ rw k
name_run-append (String.◌∷◌ c name) rest h k =
    ap name_run (cons-append c name rest) ∙ rw (h.0, name_run-append name rest h.1 k)

not_brace : (c : ℕ) → starts_name c ≡ true → eqb c b'{' ≡ false
not_brace c h = ground arith

pub named :
    (c : Char) (name rest : String)
    → starts_name (code c) ≡ true
    → AllContinue name
    → EndsName rest
    → variable (String.◌∷◌ c (name ⊕ rest)) ≡ some (String.◌∷◌ c name, rest)
unfolding variable
named c name rest k n e = rw (not_brace (code c) k, variable, k, name_run-append name rest n e)

module _ (getenv : String → String) where
  pub expand_env-cons :
      (c : Char) (s : String)
      → eqb (code c) b'$' ≡ false
      → expand_env getenv (String.◌∷◌ c s) ≡ String.◌∷◌ c (expand_env getenv s)
  unfolding expand_env
  expand_env-cons c s h = rw h

  pub expand_env-variable :
      (c : Char) (s name rest : String)
      → eqb (code c) b'$' ≡ true
      → variable s ≡ some (name, rest)
      → expand_env getenv (String.◌∷◌ c s) ≡ getenv name ⊕ expand_env getenv rest
  unfolding expand_env
  expand_env-variable c s name rest h v =
      let below : size rest < size s = rw v at (variable-Below s) in
      rw (h, v)
        (ap (λ t. getenv name ⊕ t)
          (expand_fuel getenv (suc (size s)) (suc (size rest)) rest (omega arith) (omega arith)))

  expand_env-append :
      (pre s : String) → Without b'$' pre → expand_env getenv (pre ⊕ s) ≡ pre ⊕ expand_env getenv s
  expand_env-append String.[] s h = ap (expand_env getenv) (nil-append s) ∙ sym (nil-append _)
  expand_env-append (String.◌∷◌ c pre) s h =
      ap (expand_env getenv) (cons-append c pre s)
      ∙ expand_env-cons c (pre ⊕ s) h.0
      ∙ ap (String.◌∷◌ c) (expand_env-append pre s h.1)
      ∙ sym (cons-append c pre _)

  -- A text without a dollar sign is left as it is.
  pub expand_env-plain : (s : String) → Without b'$' s → expand_env getenv s ≡ s
  expand_env-plain String.[] h = unfold expand_env in refl
  expand_env-plain (String.◌∷◌ c s) h =
      expand_env-cons c s h.0 ∙ ap (String.◌∷◌ c) (expand_env-plain s h.1)

  pub braced :
      (name rest : String)
      → Without b'}' name
      → name ≢ ""
      → variable (String.◌∷◌ "{" (name ⊕ ("}" ⊕ rest))) ≡ some (name, rest)
  unfolding variable
  braced name rest h n = rw (to_brace-append name rest h, eq_of_ne name "" n)

  -- `${name}` after a text without a dollar sign is replaced by the value of the variable, whatever
  -- follows, for a name that is not empty and holds no closing brace.
  pub expand_env-braced :
      (pre name rest : String)
      → Without b'$' pre
      → Without b'}' name
      → name ≢ ""
      → expand_env getenv (pre ⊕ String.◌∷◌ "$" (String.◌∷◌ "{" (name ⊕ ("}" ⊕ rest))))
        ≡ pre ⊕ (getenv name ⊕ expand_env getenv rest)
  expand_env-braced pre name rest h k n =
      expand_env-append pre _ h
      ∙ ap (λ t. pre ⊕ t) (expand_env-variable "$" _ name rest refl (braced name rest k n))

  -- `$name` after a text without a dollar sign is replaced by the value of the variable, where the
  -- name starts with a letter or `_`, goes on with letters, digits and `_`, and ends there.
  pub expand_env-named :
      (pre : String) (c : Char) (name rest : String)
      → Without b'$' pre
      → starts_name (code c) ≡ true
      → AllContinue name
      → EndsName rest
      → expand_env getenv (pre ⊕ String.◌∷◌ "$" (String.◌∷◌ c (name ⊕ rest)))
        ≡ pre ⊕ (getenv (String.◌∷◌ c name) ⊕ expand_env getenv rest)
  expand_env-named pre c name rest h k n e =
      expand_env-append pre _ h
      ∙ ap (λ t. pre ⊕ t)
          (expand_env-variable "$" _ (String.◌∷◌ c name) rest refl (named c name rest k n e))
