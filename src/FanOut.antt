-- ===== src/FanOut.antt =====
-- The fan-outs of internal/server/tools.go and internal/embed/fanout.go: one goroutine for each target,
-- which puts its result at the index of the target. Each runs as a whole, in an order that is an
-- argument. Interleaved has goroutines that take turns.
pub mod Laws
pub mod Interleaved
use capo_shell_mcp.Prelude.{ℕ, suc, eqb, String, Bool, false, ◌||◌, List, [], ◌∷◌, if◌then◌else◌}

-- The `i`-th goroutine of a fan-out, for the `i`-th target.
abbrev pub enumerate : ℕ → List String → List (ℕ × String)
enumerate i [] = []
enumerate i (t ∷ ts) = (i, t) ∷ enumerate (suc i) ts

module _ {R : Type 0} where
  abbrev pub put : (ℕ → R) → ℕ → R → ℕ → R
  put results i r j = if eqb i j then r else results j

  abbrev pub collect : (ℕ → R) → ℕ → List String → List R
  collect results i [] = []
  collect results i (t ∷ ts) = results i ∷ collect results (suc i) ts

module _ {S R : Type 0} (job : String → S → R × S) where
  unfoldable pub run_jobs : List (ℕ × String) → (ℕ → R) → S → (ℕ → R) × S
  run_jobs [] results s = (results, s)
  run_jobs ((i, target) ∷ order) results s =
      let (r, s') = job target s in run_jobs order (put results i r) s'

  -- The slice `results` after `wg.Wait()`; it starts with zero values.
  unfoldable pub fan_out : R → List (ℕ × String) → List String → S → List R × S
  unfolding run_jobs
  fan_out zero_value order targets s =
      let (results, s') = run_jobs order (λ _. zero_value) s in (collect results 0 targets, s')

module _ {R : Type 0} (failed : R → Bool) where
  abbrev pub any_failed : List R → Bool
  any_failed [] = false
  any_failed (r ∷ rs) = failed r || any_failed rs
