-- ===== src/Config/Env/Laws.antt =====
-- The fuel of `expand`, and the length of the text after a match.
use Prim.Native.Char.{Char, code}
use capo_shell_mcp.Prelude.{
  ℕ, zero, suc, ◌≤◌, ◌<◌, ◌≡◌, refl, ap, ◌∙◌, true, if◌then◌else◌, String, ◌⊕◌, Option, none, some,
  eqb, ◌==◌, arith, Bool-cases, Option-cases, inl, inr,
}
use capo_shell_mcp.Config.Env.{
  starts_name, size, cons_name, to_brace, name_run, not_empty, variable, expand, expand_env,
}

-- The text after a match is shorter than the bound.
abbrev pub Below : Option (String × String) → ℕ → Type 0
Below none k = Unit
Below (some (name, rest)) k = size rest < k

cons_name-Below :
    (c : Char) (o : Option (String × String)) (k : ℕ) → Below o k → Below (cons_name c o) (suc k)
cons_name-Below c none k h = tt
cons_name-Below c (some (name, rest)) k h = omega arith

not_empty-Below : (o : Option (String × String)) (k : ℕ) → Below o k → Below (not_empty o) (suc k)
not_empty-Below none k h = tt
not_empty-Below (some (name, rest)) k h = elim (Bool-cases (name == "")) [
  | inl e ↦ rw e tt
  | inr e ↦ rw e (omega arith)
]

to_brace-Below : (s : String) → Below (to_brace s) (size s)
unfolding to_brace
to_brace-Below String.[] = tt
to_brace-Below (String.◌∷◌ c s) = elim (Bool-cases (eqb (code c) b'}')) [
  | inl e ↦ rw e (omega arith)
  | inr e ↦ rw e (cons_name-Below c (to_brace s) (size s) (to_brace-Below s))
]

name_run-size : (s : String) → size (name_run s).1 ≤ size s
unfolding name_run
name_run-size String.[] = omega arith
name_run-size (String.◌∷◌ c s) = ground (arith, name_run-size s)

pub variable-Below : (s : String) → Below (variable s) (size s)
unfolding variable
variable-Below String.[] = tt
variable-Below (String.◌∷◌ c s) = elim (Bool-cases (eqb (code c) b'{')) [
  | inl e ↦ rw (e, variable) (not_empty-Below (to_brace s) (size s) (to_brace-Below s))
  | inr e ↦ elim (Bool-cases (starts_name (code c))) [
    | inl n ↦ rw (e, variable, n) (omega (arith, name_run-size s))
    | inr n ↦ rw (e, variable, n) tt
  ]
]

module _ (getenv : String → String) where
  pub expand_fuel :
      (f g : ℕ) (s : String) → size s < f → size s < g → expand getenv f s ≡ expand getenv g s
  unfolding expand
  expand_fuel zero g s h k = absurd (omega arith)
  expand_fuel (suc f) zero s h k = absurd (omega arith)
  expand_fuel (suc f) (suc g) String.[] h k = refl
  expand_fuel (suc f) (suc g) (String.◌∷◌ c s) h k = elim (Bool-cases (eqb (code c) b'$')) [
    | inl e ↦ elim (Option-cases (variable s)) [
      | inl n ↦ rw (e, n) (ap (String.◌∷◌ c) (expand_fuel f g s (omega arith) (omega arith)))
      | inr ((name, rest), v) ↦
          let below : size rest < size s = rw v at (variable-Below s) in
          rw (e, v) (ap (λ t. getenv name ⊕ t) (expand_fuel f g rest (omega arith) (omega arith)))
    ]
    | inr e ↦ rw e (ap (String.◌∷◌ c) (expand_fuel f g s (omega arith) (omega arith)))
  ]

  -- One match of the expansion, without fuel: the variable of a match is replaced, and the rest of the
  -- text is expanded; any other character stays.
  abbrev pub after_dollar : Char → String → Option (String × String) → String
  after_dollar c s none = String.◌∷◌ c (expand_env getenv s)
  after_dollar c s (some (name, rest)) = getenv name ⊕ expand_env getenv rest

  pub expand_env-dollar :
      (c : Char) (s : String)
      → eqb (code c) b'$' ≡ true
      → expand_env getenv (String.◌∷◌ c s) ≡ after_dollar c s (variable s)
  unfolding expand_env expand
  expand_env-dollar c s e = elim (Option-cases (variable s)) [
    | inl n ↦ rw (e, n) refl
    | inr ((name, rest), v) ↦
        let below : size rest < size s = rw v at (variable-Below s) in
        rw (e, v)
          (ap (λ t. getenv name ⊕ t)
            (expand_fuel (suc (size s)) (suc (size rest)) rest (omega arith) (omega arith)))
  ]

  -- `expandEnv` ends: its fuel is enough, since any fuel above the length of the text gives the same. So it
  -- follows the recursion of the source: a match is replaced and what follows it is expanded, a character
  -- that is not matched stays.
  pub expand_env_enough :
      (s : String)
      → ((f : ℕ) → size s < f → expand getenv f s ≡ expand_env getenv s)
        × ((c : Char)
            → expand_env getenv (String.◌∷◌ c s) ≡ (
                if eqb (code c) b'$'
                then after_dollar c s (variable s)
                else String.◌∷◌ c (expand_env getenv s)))
  unfolding expand_env
  expand_env_enough s = (
    λ f h. expand_fuel f (suc (size s)) s h (omega arith),
    λ c. elim (Bool-cases (eqb (code c) b'$')) [
      | inl e ↦ expand_env-dollar c s e ∙ rw e refl
      | inr e ↦ unfold expand in rw e refl
    ],
  )
