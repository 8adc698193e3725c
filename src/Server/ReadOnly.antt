-- ===== src/Server/ReadOnly.antt =====
-- What the calls of the server leave as it was in the world outside, and what their results are.
pub mod Calls
pub mod Listing
pub mod Kubeconfig
pub mod Targets
pub mod Tools
use capo_shell_mcp.Prelude.{◌≡◌, refl, ap, Bool, true, false, Result, ok, err, if◌then◌else◌}
use capo_shell_mcp.Action.{Action, pure, raise, lift, follow, ◌>>=◌, ◌>>◌}
use capo_shell_mcp.Server.Outside.{State, outer}

module _ {X : Type 0} (P : X → Type 0) where
  -- What a call gives for a state of the world that has `P`: a world that has it, and if it gives a value,
  -- one that has `Q`.
  abbrev pub Ends : {A : Type 0} → (A → Type 0) → Result A × State X → Type 0
  Ends {A = A} Q r = P r.1.outside × ((a : A) → r.0 ≡ ok a → Q a)

  abbrev pub Gives : {A : Type 0} → (A → Type 0) → Action (State X) A → Type 0
  Gives Q m = (s : State X) → P s.outside → Ends Q (m s)

  abbrev pub Keeps : {A : Type 0} → Action (State X) A → Type 0
  Keeps m = Gives (λ _. Unit {0}) m

  pub follow-Ends :
      {A B : Type 0} {Q : A → Type 0} (R : B → Type 0) (next : A → Action (State X) B)
      (r : Result A × State X)
      → Ends Q r
      → ((a : A) → Q a → Gives R (next a))
      → Ends R (follow next r)
  follow-Ends R next (ok a, s) h k = k a (h.1 a refl) s h.0
  follow-Ends R next (err e, s) h k = (h.0, λ b i. cc)

  pub bind-Gives :
      {A B : Type 0} {Q : A → Type 0} (R : B → Type 0) (m : Action (State X) A)
      (next : A → Action (State X) B)
      → Gives Q m
      → ((a : A) → Q a → Gives R (next a))
      → Gives R (m >>= next)
  bind-Gives R m next h k s p = follow-Ends R next (m s) (h s p) k

  pub then-Keeps :
      {A B : Type 0} (m : Action (State X) A) (next : A → Action (State X) B)
      → Keeps m
      → ((a : A) → Keeps (next a))
      → Keeps (m >>= next)
  then-Keeps m next h k = bind-Gives (λ _. Unit) m next h (λ a u. k a)

  pub lift-Keeps : {A : Type 0} (r : Result A) → Keeps (lift r)
  lift-Keeps r s p = (p, λ a h. tt)

  pub outer-Gives :
      {A : Type 0} (Q : A → Type 0) (m : Action X A)
      → ((x : X) → P x → P (m x).1)
      → ((x : X) (a : A) → (m x).0 ≡ ok a → Q a)
      → Gives Q (outer m)
  outer-Gives Q m h k s p = (h s.outside p, k s.outside)

  pub outer-Keeps : {A : Type 0} (m : Action X A) → ((x : X) → P x → P (m x).1) → Keeps (outer m)
  outer-Keeps m h s p = (h s.outside p, λ a i. tt)

  pub if-Keeps :
      {A : Type 0} (b : Bool) (m n : Action (State X) A)
      → Keeps m
      → Keeps n
      → Keeps (if b then m else n)
  if-Keeps true m n h k = h
  if-Keeps false m n h k = k
