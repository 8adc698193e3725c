-- ===== src/Server/Keeps.antt =====
-- Calls that leave both caches alone.
use capo_shell_mcp.Prelude.{◌≡◌, refl, ◌∙◌, Bool, true, false, Result, ok, err, if◌then◌else◌}
use capo_shell_mcp.Action.{Action, follow, ◌>>=◌}
use capo_shell_mcp.Server.Outside.{State}

abbrev pub Keeps {ℓ} : {X : Type 0} {A : Type ℓ} → Action (State X) A → Type 0
Keeps {X = X} m = (s : State X) → (m s).1.store ≡ s.store

module _ {X : Type 0} where
  follow-Keeps {ℓ κ} :
      {A : Type ℓ} {B : Type κ} (next : A → Action (State X) B) (r : Result A × State X)
      → ((a : A) → Keeps (next a))
      → (follow next r).1.store ≡ r.1.store
  follow-Keeps next (ok a, s) k = k a s
  follow-Keeps next (err e, s) k = refl

  pub bind-Keeps {ℓ κ} :
      {A : Type ℓ} {B : Type κ} (m : Action (State X) A) (next : A → Action (State X) B)
      → Keeps m
      → ((a : A) → Keeps (next a))
      → Keeps (m >>= next)
  bind-Keeps m next h k s = follow-Keeps next (m s) k ∙ h s

  pub if-Keeps {ℓ} :
      {A : Type ℓ} (b : Bool) (m n : Action (State X) A)
      → Keeps m
      → Keeps n
      → Keeps (if b then m else n)
  if-Keeps true m n h k = h
  if-Keeps false m n h k = k
