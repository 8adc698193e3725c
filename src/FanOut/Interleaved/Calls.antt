-- ===== src/FanOut/Interleaved/Calls.antt =====
-- Chains of calls that may fail, one turn for each call.
use capo_shell_mcp.Prelude.{◌≡◌, refl, ap, ◌∙◌, Bool, true, false, Result, ok, err, if◌then◌else◌}
use capo_shell_mcp.Action.{Action, follow}
use capo_shell_mcp.FanOut.Interleaved.{Goroutine, done, call, run_whole}

-- A call that is one turn.
abbrev pub turn : {S A : Type 0} → Action S A → Goroutine S (Result A)
turn m = call (λ s. (m s).1) (λ s. done (m s).0)

-- if err != nil { return err }
abbrev pub and_then :
    {S A B : Type 0}
    → Goroutine S (Result A)
    → (A → Goroutine S (Result B))
    → Goroutine S (Result B)
and_then (done (ok a)) next = next a
and_then (done (err e)) next = done (err e)
and_then (call change rest) next = call change (λ s. and_then (rest s) next)

-- `g` has the calls of `m`, one turn for each.
abbrev pub Splits : {S A : Type 0} → Goroutine S (Result A) → Action S A → Type 0
Splits {S = S} g m = (s : S) → run_whole g s ≡ m s

module _ {S : Type 0} where
  run_whole-and_then :
      {A B : Type 0} (g : Goroutine S (Result A)) (next : A → Goroutine S (Result B)) (s : S)
      → run_whole (and_then g next) s ≡ follow (λ a. run_whole (next a)) (run_whole g s)
  unfolding run_whole
  run_whole-and_then (done (ok a)) next s = refl
  run_whole-and_then (done (err e)) next s = refl
  run_whole-and_then (call change rest) next s = run_whole-and_then (rest s) next (change s)

  follow-same :
      {A B : Type 0} (f h : A → Action S B) (r : Result A × S)
      → ((a : A) (s : S) → f a s ≡ h a s)
      → follow f r ≡ follow h r
  follow-same f h (ok a, s) e = e a s
  follow-same f h (err x, s) e = refl

  pub turn-Splits : {A : Type 0} (m : Action S A) → Splits (turn m) m
  unfolding run_whole
  turn-Splits m s = refl

  pub done-Splits : {A : Type 0} (r : Result A) → Splits {S = S} (done r) (λ s. (r, s))
  unfolding run_whole
  done-Splits r s = refl

  pub and_then-Splits :
      {A B : Type 0} (g : Goroutine S (Result A)) (m : Action S A)
      (next : A → Goroutine S (Result B)) (f : A → Action S B)
      → Splits g m
      → ((a : A) → Splits (next a) (f a))
      → Splits (and_then g next) (λ s. follow f (m s))
  and_then-Splits g m next f h k s =
      run_whole-and_then g next s
      ∙ ap (follow (λ a. run_whole (next a))) (h s)
      ∙ follow-same (λ a. run_whole (next a)) f (m s) k

  pub if-Splits :
      {A : Type 0} (b : Bool) (g h : Goroutine S (Result A)) (m n : Action S A)
      → Splits g m
      → Splits h n
      → Splits (if b then g else h) (if b then m else n)
  if-Splits true g h m n p q = p
  if-Splits false g h m n p q = q
