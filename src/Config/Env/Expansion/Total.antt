-- ===== src/Config/Env/Expansion/Total.antt =====
-- Every text is described by the regular expression of `expandEnv`.
use Prim.Native.Char.{code}
use text.Mathlib.TextEquality.{Char-path}
use text.Mathlib.TextLemmas.{nil-append, cons-append}
use capo_shell_mcp.Prelude.{
  ℕ, zero, suc, ◌≤◌, ◌<◌, ◌≡◌, ◌≢◌, ◌⊎◌, ◌↔◌, inl, inr, refl, sym, ap, subst, ◌∙◌, String, ◌⊕◌,
  true, false, eqb, arith, Bool-cases,
}
use capo_shell_mcp.Config.Env.{size, starts_name, continues_name, expand_env}
use capo_shell_mcp.Config.Env.Forms.{Without}
use capo_shell_mcp.Config.Env.Expansion.{
  IsLetter, IsNameChar, AllNameChars, NameEnds, BeginsBrace, Expands, at_end, plain, in_braces,
  by_name, lone, expand_env-Expands,
}

code_equal : (c : ℕ) (k : ℕ) → eqb c k ≡ true → c ≡ k
code_equal c k h = ground arith

code_other : (c : ℕ) (k : ℕ) → eqb c k ≡ false → c ≢ k
code_other c k h = ground arith

IsLetter-starts_name : (k : ℕ) → starts_name k ≡ true → IsLetter k
IsLetter-starts_name k h = ground arith

IsLetter-starts_name_none : (k : ℕ) → starts_name k ≡ false → ¬ IsLetter k
IsLetter-starts_name_none k h = ground arith

IsNameChar-continues_name : (k : ℕ) → continues_name k ≡ true → IsNameChar k
IsNameChar-continues_name k h = ground arith

IsNameChar-continues_none : (k : ℕ) → continues_name k ≡ false → ¬ IsNameChar k
IsNameChar-continues_none k h = ground arith

-- A text after `${`: there is no closing brace, or it is split at the first one.
abbrev Braced : String → Type 0
Braced s =
    (name : String) × (rest : String) × (s ≡ name ⊕ ("}" ⊕ rest))
    × Without b'}' name
    × (size rest < size s)

brace_cases : (s : String) → Without b'}' s ⊎ Braced s
brace_cases String.[] = inl tt
brace_cases (String.◌∷◌ c s) = elim (Bool-cases (eqb (code c) b'}')) [
  | inl e ↦
      (let same : c ≡ "}" = Char-path c "}" (code_equal (code c) b'}' e) in
        inr (
          "",
          s,
          ap (λ d. String.◌∷◌ d s) same
              ∙ sym (nil-append _ ∙ cons-append "}" "" s ∙ ap (String.◌∷◌ "}") (nil-append s)),
          tt,
          omega arith,
        ))
  | inr e ↦ elim (brace_cases s) [
    | inl w ↦ inl (e, w)
    | inr (name, rest, q, w, l) ↦ inr (
      String.◌∷◌ c name,
      rest,
      ap (String.◌∷◌ c) q ∙ sym (cons-append c name ("}" ⊕ rest)),
      (e, w),
      omega (arith, l),
    )
  ]
]

-- A text after `$` and a letter: what belongs to the name, and what follows it.
name_cases :
    (s : String)
    → (name : String) × (rest : String) × (s ≡ name ⊕ rest)
      × AllNameChars name
      × NameEnds rest
      × (size rest ≤ size s)
name_cases String.[] = ("", "", sym (nil-append ""), tt, tt, omega arith)
name_cases (String.◌∷◌ c s) = elim (Bool-cases (continues_name (code c))) [
  | inl e ↦
      (let (name, rest, q, w, n, l) = name_cases s in
        (
          String.◌∷◌ c name,
          rest,
          ap (String.◌∷◌ c) q ∙ sym (cons-append c name rest),
          (IsNameChar-continues_name (code c) e, w),
          n,
          omega (arith, l),
        ))
  | inr e ↦ (
    "",
    String.◌∷◌ c s,
    sym (nil-append _),
    tt,
    IsNameChar-continues_none (code c) e,
    omega arith,
  )
]

module _ (getenv : String → String) where
  abbrev IsDescribed : String → Type 0
  IsDescribed s = (t : String) × Expands getenv s t

  after_braces :
      (s : String)
      → Braced s
      → ((r : String) → size r < suc (suc (size s)) → IsDescribed r)
      → IsDescribed (String.◌∷◌ "$" (String.◌∷◌ "{" s))
  after_braces s (String.[], rest, q, w, l) described =
      let (t, h) = described (String.◌∷◌ "{" s) (omega arith) in
      let begins : BeginsBrace s =
        subst BeginsBrace (sym (q ∙ nil-append _ ∙ cons-append "}" "" rest)) refl in
      (String.◌∷◌ "$" t, lone (inr (refl, inr begins)) h)
  after_braces s (String.◌∷◌ c name, rest, q, w, l) described =
      let (t, h) = described rest (omega (arith, l)) in
      (
        getenv (String.◌∷◌ c name) ⊕ t,
        subst
            (λ u.
              Expands getenv (String.◌∷◌ "$" (String.◌∷◌ "{" u)) (getenv (String.◌∷◌ c name) ⊕ t))
            (sym q) (in_braces (String.◌∷◌ c name) w (λ e. cc e) h),
      )

  after_dollar_sign :
      (s : String)
      → ((r : String) → size r < suc (size s) → IsDescribed r)
      → IsDescribed (String.◌∷◌ "$" s)
  after_dollar_sign String.[] described = ("$", lone tt at_end)
  after_dollar_sign (String.◌∷◌ c s) described = elim (Bool-cases (eqb (code c) b'{')) [
    | inl e ↦
        (let same : "{" ≡ c = sym (Char-path c "{" (code_equal (code c) b'{' e)) in
          subst (λ d. IsDescribed (String.◌∷◌ "$" (String.◌∷◌ d s))) same
            (elim (brace_cases s) [
              | inl w ↦
                  (let (t, h) = described (String.◌∷◌ "{" s) (omega arith) in
                    (String.◌∷◌ "$" t, lone (inr (refl, inl w)) h))
              | inr b ↦ after_braces s b described
            ]))
    | inr e ↦ elim (Bool-cases (starts_name (code c))) [
      | inl n ↦
          (let (name, rest, q, w, k, l) = name_cases s in
            let (t, h) = described rest (omega (arith, l)) in
            (
              getenv (String.◌∷◌ c name) ⊕ t,
              subst
                  (λ u.
                    Expands getenv (String.◌∷◌ "$" (String.◌∷◌ c u))
                      (getenv (String.◌∷◌ c name) ⊕ t))
                  (sym q) (by_name c name (IsLetter-starts_name (code c) n) w k h),
            ))
      | inr n ↦
          (let (t, h) = described (String.◌∷◌ c s) (omega arith) in
            (
              String.◌∷◌ "$" t,
              lone (inl (code_other (code c) b'{' e, IsLetter-starts_name_none (code c) n)) h,
            ))
    ]
  ]

  IsDescribed-below : (n : ℕ) (s : String) → size s < n → IsDescribed s
  IsDescribed-below zero s l = absurd (omega (arith, l))
  IsDescribed-below (suc n) String.[] l = ("", at_end)
  IsDescribed-below (suc n) (String.◌∷◌ c s) l = elim (Bool-cases (eqb (code c) b'$')) [
    | inl e ↦
        subst (λ d. IsDescribed (String.◌∷◌ d s))
          (sym (Char-path c "$" (code_equal (code c) b'$' e)))
          (after_dollar_sign s (λ r k. IsDescribed-below n r (omega (arith, k, l))))
    | inr e ↦
        (let (t, h) = IsDescribed-below n s (omega (arith, l)) in
          (String.◌∷◌ c t, plain c (code_other (code c) b'$' e) h))
  ]

  -- `expandEnv` gives exactly the text that a description of the regular expression gives, and every text is
  -- described: `${name}` is replaced by the value of the variable for a name that is not empty and holds no
  -- closing brace, `$name` for a name of letters, digits and `_` that does not start with a digit, as far
  -- as it reaches, and everything else stays, also a dollar sign that begins no reference; the values
  -- are not expanded again.
  pub expand_env_iff : (s t : String) → Expands getenv s t ↔ (expand_env getenv s ≡ t)
  expand_env_iff s t = (
    expand_env-Expands getenv,
    λ h.
        let (u, d) = IsDescribed-below (suc (size s)) s (omega arith) in
        subst (Expands getenv s) (sym (expand_env-Expands getenv d) ∙ h) d,
  )
