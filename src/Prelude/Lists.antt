-- ===== src/Prelude/Lists.antt =====
-- Lists measured by native numbers, membership by recursion, and lists of texts as sets.
use Prim.Native.Nat.{ℕ, suc, ◌+◌}
use Prim.Native.String.{String}
use mathlib.Core.Path.{◌≡◌, refl}
use mathlib.Core.Logic.{◌⊎◌, ◌↔◌, inl, inr}
use mathlib.Core.Bool.{Bool, true, false, ◌||◌, false≢true}
use mathlib.Core.List.{List, [], ◌∷◌, ◌++◌}
use native.Mathlib.Omega.{arith}
use text.Mathlib.Text.{◌==◌}
use text.Mathlib.TextEquality.{eq_iff}
use capo_shell_mcp.Prelude.Tests.{if◌then◌else◌}

module _ {ℓ} {A : Type ℓ} where
  abbrev pub length : List A → ℕ
  length [] = 0
  length (x ∷ xs) = suc (length xs)

  pub length-append : (xs ys : List A) → length (xs ++ ys) ≡ length xs + length ys
  length-append [] ys = omega arith
  length-append (x ∷ xs) ys = omega (arith, length-append xs ys)

module _ {A : Type 0} where
  -- The occurrences of a value, by recursion on the list.
  abbrev pub In : A → List A → Type 0
  In a [] = ⊥
  In a (x ∷ xs) = (a ≡ x) ⊎ In a xs

  pub In-append_left : (a : A) (xs ys : List A) → In a xs → In a (xs ++ ys)
  In-append_left a [] ys h = absurd h
  In-append_left a (x ∷ xs) ys (inl e) = inl e
  In-append_left a (x ∷ xs) ys (inr h) = inr (In-append_left a xs ys h)

  pub In-append_right : (a : A) (xs ys : List A) → In a ys → In a (xs ++ ys)
  In-append_right a [] ys h = h
  In-append_right a (x ∷ xs) ys h = inr (In-append_right a xs ys h)

  pub In-append : (a : A) (xs ys : List A) → In a (xs ++ ys) → In a xs ⊎ In a ys
  In-append a [] ys h = inr h
  In-append a (x ∷ xs) ys (inl e) = inl (inl e)
  In-append a (x ∷ xs) ys (inr h) = elim (In-append a xs ys h) [
    | inl l ↦ inl (inr l)
    | inr r ↦ inr r
  ]

module _ {A : Type 0} where
  -- Membership in a list that a test has put a value in front of.
  pub In-if :
      (b : Bool) (t x : A) (xs : List A)
      → In t (if b then x ∷ xs else xs)
      → ((b ≡ true) × (t ≡ x)) ⊎ In t xs
  In-if true t x xs (inl e) = inl (refl, e)
  In-if true t x xs (inr h) = inr h
  In-if false t x xs h = inr h

  pub In-if_here :
      (b : Bool) (t x : A) (xs : List A) → b ≡ true → t ≡ x → In t (if b then x ∷ xs else xs)
  In-if_here true t x xs h e = inl e
  In-if_here false t x xs h e = absurd (false≢true h)

  pub In-if_there : (b : Bool) (t x : A) (xs : List A) → In t xs → In t (if b then x ∷ xs else xs)
  In-if_there true t x xs h = inr h
  In-if_there false t x xs h = h

module _ {ℓ κ} {A : Type ℓ} (P : A → Type κ) where
  abbrev pub All : List A → Type κ
  All [] = Unit
  All (x ∷ xs) = P x × All xs

  pub All-append : (xs ys : List A) → All xs → All ys → All (xs ++ ys)
  All-append [] ys h k = k
  All-append (x ∷ xs) ys h k = (h.0, All-append xs ys h.1 k)

-- `slices.Contains`, and the keys of a set of texts.
unfoldable pub contains : String → List String → Bool
contains a [] = false
contains a (x ∷ xs) = x == a || contains a xs

pub contains_iff : (a : String) (xs : List String) → (contains a xs ≡ true) ↔ In a xs
unfolding contains
contains_iff a [] = (λ h. ground arith, λ h. absurd h)
contains_iff a (x ∷ xs) = (
  λ h. ground (arith, eq_iff x a, contains_iff a xs),
  λ h. ground (arith, eq_iff x a, contains_iff a xs),
)

abbrev pub NoDup : List String → Type 0
NoDup [] = Unit
NoDup (x ∷ xs) = (contains x xs ≡ false) × NoDup xs
