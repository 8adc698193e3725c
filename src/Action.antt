-- ===== src/Action.antt =====
-- Calls that return `(T, error)` and change a state, in a chain that stops at the first error.
use capo_shell_mcp.Prelude.{String, Result, Error, ok, err, wrap, ◌≡◌, refl, ap, ◌⊎◌, inl, inr}

abbrev pub Action {ℓ} : Type 0 → Type ℓ → Type ℓ
Action S A = S → Result A × S

-- if err != nil { return fmt.Errorf("prefix: %w", err) }
abbrev pub noted {ℓ} : {A : Type ℓ} → String → Result A → Result A
noted prefix (ok a) = ok a
noted prefix (err e) = err (wrap prefix e)

module _ {S : Type 0} where
  abbrev pub pure {ℓ} : {A : Type ℓ} → A → Action S A
  pure a s = (ok a, s)

  abbrev pub raise {ℓ} : {A : Type ℓ} → Error → Action S A
  raise e s = (err e, s)

  -- A call that changes no state.
  abbrev pub lift {ℓ} : {A : Type ℓ} → Result A → Action S A
  lift r s = (r, s)

  abbrev pub annotate {ℓ} : {A : Type ℓ} → String → Action S A → Action S A
  annotate prefix m s = let (r, s') = m s in (noted prefix r, s')

  -- What follows a call, for the call's result.
  abbrev pub follow {ℓ κ} :
      {A : Type ℓ} {B : Type κ} → (A → Action S B) → Result A × S → Result B × S
  follow next (ok a, s) = next a s
  follow next (err e, s) = (err e, s)

  infixl 5 ◌>>=◌ ◌>>◌
  abbrev pub ◌>>=◌ {ℓ κ} : {A : Type ℓ} {B : Type κ} → Action S A → (A → Action S B) → Action S B
  ◌>>=◌ m next s = follow next (m s)

  abbrev pub ◌>>◌ {ℓ κ} : {A : Type ℓ} {B : Type κ} → Action S A → Action S B → Action S B
  ◌>>◌ m next s = follow (λ _. next) (m s)

  pub follow-ok {ℓ κ} :
      {A : Type ℓ} {B : Type κ} (next : A → Action S B) (r : Result A × S) {b : B} {s : S}
      → follow next r ≡ (ok b, s)
      → (a : A) × (r.0 ≡ ok a) × (next a r.1 ≡ (ok b, s))
  follow-ok next (ok a, t) h = (a, refl, h)
  follow-ok next (err e, t) h = cc

  pub follow-err {ℓ κ} :
      {A : Type ℓ} {B : Type κ} (next : A → Action S B) (r : Result A × S) {e : Error}
      → (follow next r).0 ≡ err e
      → ((r.0 ≡ err e) × ((follow next r).1 ≡ r.1))
        ⊎ ((a : A) × ((next a r.1).0 ≡ err e) × (follow next r ≡ next a r.1))
  follow-err next (ok a, t) h = inr (a, h, refl)
  follow-err next (err e, t) h = inl (cc, refl)

  -- A chain whose last step changes no state.
  pub follow-lift {ℓ κ} :
      {A : Type ℓ} {B : Type κ} (f : A → Result B) (r : Result A × S) {b : B} {s : S}
      → follow (λ a. lift (f a)) r ≡ (ok b, s)
      → (a : A) × (r ≡ (ok a, s)) × (f a ≡ ok b)
  follow-lift f (ok a, t) h = (a, ap (λ x. (ok a, x)) (ap (λ x. x.1) h), ap (λ x. x.0) h)
  follow-lift f (err e, t) h = absurd (cc (ap (λ x. x.0) h))

pub noted-ok {ℓ} :
    {A : Type ℓ} (prefix : String) (r : Result A) {a : A} → noted prefix r ≡ ok a → r ≡ ok a
noted-ok prefix (ok b) h = h
noted-ok prefix (err e) h = cc
