-- ===== src/Config/Env/Expansion.antt =====
-- The regular expression of `expandEnv`, described without the matcher.
pub mod Total
use Prim.Native.Char.{Char, code}
use capo_shell_mcp.Prelude.{
  ℕ, ◌≤◌, ◌≡◌, ◌≢◌, ◌∙◌, ◌⊎◌, inl, inr, refl, ap, String, ◌⊕◌, true, false, none, eqb, arith,
}
use capo_shell_mcp.Config.Env.{
  starts_name, continues_name, to_brace, not_empty, variable, expand_env,
}
use capo_shell_mcp.Config.Env.Laws.{after_dollar, expand_env-dollar}
use capo_shell_mcp.Config.Env.Forms.{
  Without, AllContinue, EndsName, expand_env-cons, expand_env-variable, braced, named,
}

-- [A-Za-z_]
abbrev pub IsLetter : ℕ → Type 0
IsLetter k = ((b'A' ≤ k) × (k ≤ b'Z')) ⊎ (((b'a' ≤ k) × (k ≤ b'z')) ⊎ (k ≡ b'_'))

-- [A-Za-z0-9_]
abbrev pub IsNameChar : ℕ → Type 0
IsNameChar k = IsLetter k ⊎ ((b'0' ≤ k) × (k ≤ b'9'))

abbrev pub AllNameChars : String → Type 0
AllNameChars String.[] = Unit
AllNameChars (String.◌∷◌ c s) = IsNameChar (code c) × AllNameChars s

-- A name that stands in front of this text ends there.
abbrev pub NameEnds : String → Type 0
NameEnds String.[] = Unit
NameEnds (String.◌∷◌ c s) = ¬ IsNameChar (code c)

-- A dollar sign in front of this text begins no reference: no name follows, and no braces with a text
-- between them.
abbrev pub BeginsBrace : String → Type 0
BeginsBrace String.[] = ⊥
BeginsBrace (String.◌∷◌ c s) = code c ≡ b'}'

abbrev pub NoReference : String → Type 0
NoReference String.[] = Unit
NoReference (String.◌∷◌ c s) =
    ((code c ≢ b'{') × (¬ IsLetter (code c))) ⊎ ((code c ≡ b'{') × (Without b'}' s ⊎ BeginsBrace s))

-- What the regular expression describes: a text, read from the left, and the text with its references
-- replaced.
pub data Expands (getenv : String → String) : String → String → Type 0 where
  at_end : Expands getenv "" ""
  plain :
      (c : Char) {s t : String}
      → code c ≢ b'$'
      → Expands getenv s t
      → Expands getenv (String.◌∷◌ c s) (String.◌∷◌ c t)
  in_braces :
      (name : String) {s t : String}
      → Without b'}' name
      → name ≢ ""
      → Expands getenv s t
      → Expands getenv (String.◌∷◌ "$" (String.◌∷◌ "{" (name ⊕ ("}" ⊕ s)))) (getenv name ⊕ t)
  by_name :
      (c : Char) (name : String) {s t : String}
      → IsLetter (code c)
      → AllNameChars name
      → NameEnds s
      → Expands getenv s t
      → Expands getenv (String.◌∷◌ "$" (String.◌∷◌ c (name ⊕ s))) (getenv (String.◌∷◌ c name) ⊕ t)
  lone :
      {s t : String}
      → NoReference s
      → Expands getenv s t
      → Expands getenv (String.◌∷◌ "$" s) (String.◌∷◌ "$" t)

eqb_of_ne : (k j : ℕ) → k ≢ j → eqb k j ≡ false
eqb_of_ne k j h = ground arith

IsLetter-starts : (k : ℕ) → IsLetter k → starts_name k ≡ true
IsLetter-starts k h = ground arith

starts-IsLetter : (k : ℕ) → (¬ IsLetter k) → starts_name k ≡ false
starts-IsLetter k h = ground arith

IsNameChar-continues : (k : ℕ) → IsNameChar k → continues_name k ≡ true
IsNameChar-continues k h = ground arith

continues-IsNameChar : (k : ℕ) → (¬ IsNameChar k) → continues_name k ≡ false
continues-IsNameChar k h = ground arith

AllNameChars-continue : (name : String) → AllNameChars name → AllContinue name
AllNameChars-continue String.[] h = tt
AllNameChars-continue (String.◌∷◌ c s) h =
    (IsNameChar-continues (code c) h.0, AllNameChars-continue s h.1)

NameEnds-name : (s : String) → NameEnds s → EndsName s
NameEnds-name String.[] h = tt
NameEnds-name (String.◌∷◌ c s) h = continues-IsNameChar (code c) h

to_brace-none : (s : String) → Without b'}' s → to_brace s ≡ none
unfolding to_brace
to_brace-none String.[] h = refl
to_brace-none (String.◌∷◌ c s) h = rw (h.0, to_brace-none s h.1) refl

no_braces : (s : String) → Without b'}' s ⊎ BeginsBrace s → not_empty (to_brace s) ≡ none
unfolding to_brace
no_braces s (inl h) = rw (to_brace-none s h) refl
no_braces String.[] (inr h) = absurd h
no_braces (String.◌∷◌ c s) (inr h) = rw h refl

NoReference-variable : (s : String) → NoReference s → variable s ≡ none
unfolding variable
NoReference-variable String.[] h = refl
NoReference-variable (String.◌∷◌ c s) (inl (brace, letter)) =
    rw ((eqb_of_ne (code c) b'{' brace), starts-IsLetter (code c) letter) refl
NoReference-variable (String.◌∷◌ c s) (inr (brace, h)) = rw brace (no_braces s h)

-- `expandEnv` gives the text that a description gives.
pub expand_env-Expands :
    (getenv : String → String) {s t : String} → Expands getenv s t → expand_env getenv s ≡ t
expand_env-Expands getenv at_end = unfold expand_env in refl
expand_env-Expands getenv (plain c k h) =
    expand_env-cons getenv c _ (eqb_of_ne (code c) b'$' k)
    ∙ ap (String.◌∷◌ c) (expand_env-Expands getenv h)
expand_env-Expands getenv (in_braces name k n h) =
    expand_env-variable getenv "$" _ name _ refl (braced getenv name _ k n)
    ∙ ap (λ t. getenv name ⊕ t) (expand_env-Expands getenv h)
expand_env-Expands getenv (by_name c name {s} k n e h) =
    expand_env-variable getenv "$" _ (String.◌∷◌ c name) s refl (
      named c name s (IsLetter-starts (code c) k) (AllNameChars-continue name n)
        (NameEnds-name s e))
    ∙ ap (λ t. getenv (String.◌∷◌ c name) ⊕ t) (expand_env-Expands getenv h)
expand_env-Expands getenv (lone {s} k h) =
    expand_env-dollar getenv "$" s refl
    ∙ ap (after_dollar getenv "$" s) (NoReference-variable s k)
    ∙ ap (String.◌∷◌ "$") (expand_env-Expands getenv h)
