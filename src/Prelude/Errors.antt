-- ===== src/Prelude/Errors.antt =====
-- Go's `(T, error)` results, and calls that also change a state.
use mathlib.Core.Path.{◌≡◌, refl}
use mathlib.Core.Logic.{◌⊎◌, inl, inr}
use Prim.Native.String.{String}

-- The errors that the program builds itself, one constructor for each place, with the values that
-- its text shows. `external` is the text of an error that other code returned, `message` one that the
-- program writes itself, and `wrap p e` is `fmt.Errorf("p: %w", e)`.
pub data Error : Type 0 where
  external message : String → Error
  wrap : String → Error → Error
  invalid_target too_many_segments empty_segment : String → Error
  empty_target : Error
  bad_cluster_entry : String → Error → Error
  no_kubeconfigs : Error
  entry_not_object path_not_string : String → Error
  exited_early : String → Error
  empty_command no_command : Error
  unknown_kubeconfig : String → Error
  unknown_target : String → Error → Error

pub data Result {ℓ} (A : Type ℓ) : Type ℓ where
  ok : A → Result A
  err : Error → Result A

infixl 5 ◌>>=◌ ◌>>◌
-- if err != nil { return err }
abbrev pub ◌>>=◌ {ℓ κ} : {A : Type ℓ} {B : Type κ} → Result A → (A → Result B) → Result B
◌>>=◌ r next = elim r [ err e ↦ err e | ok a ↦ next a ]

abbrev pub ◌>>◌ {κ} : {B : Type κ} → Result (Unit {0}) → Result B → Result B
◌>>◌ r next = elim r [ err e ↦ err e | ok _ ↦ next ]

pub Result-cases {ℓ} :
    {A : Type ℓ} (r : Result A) → ((a : A) × (r ≡ ok a)) ⊎ ((e : Error) × (r ≡ err e))
Result-cases (ok a) = inl (a, refl)
Result-cases (err e) = inr (e, refl)

-- A chain that succeeds has succeeded at its first call.
pub bind-ok {ℓ κ} :
    {A : Type ℓ} {B : Type κ} (next : A → Result B) (r : Result A) {b : B}
    → (r >>= next) ≡ ok b
    → (a : A) × (r ≡ ok a) × (next a ≡ ok b)
bind-ok next (err e) h = cc
bind-ok next (ok a) h = (a, refl, h)
