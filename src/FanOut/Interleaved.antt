-- ===== src/FanOut/Interleaved.antt =====
-- A fan-out whose goroutines take turns: a goroutine is the calls that it makes one after the other, each of
-- which reads and changes what they share.
pub mod Laws
pub mod Calls
use capo_shell_mcp.Prelude.{ℕ, suc, eqb, String, List, [], ◌∷◌, if◌then◌else◌}
use capo_shell_mcp.FanOut.{collect}

pub data Goroutine (S R : Type 0) : Type 0 where
  done : R → Goroutine S R
  -- a call changes the state, and what follows depends on the state that it found
  call : (S → S) → (S → Goroutine S R) → Goroutine S R

module _ {S R : Type 0} where
  unfoldable pub advance : Goroutine S R → S → Goroutine S R × S
  advance (done r) s = (done r, s)
  advance (call change next) s = (next s, change s)

  -- All of its calls, with nothing in between.
  unfoldable pub run_whole : Goroutine S R → S → R × S
  run_whole (done r) s = (r, s)
  run_whole (call change next) s = run_whole (next s) (change s)

  abbrev pub put_back : (ℕ → Goroutine S R) → ℕ → Goroutine S R → ℕ → Goroutine S R
  put_back gs i g j = if eqb i j then g else gs j

  -- The list says which goroutine takes each turn.
  unfoldable pub run_turns : List ℕ → (ℕ → Goroutine S R) → S → (ℕ → Goroutine S R) × S
  unfolding advance
  run_turns [] gs s = (gs, s)
  run_turns (i ∷ turns) gs s =
      let (g, s') = advance (gs i) s in run_turns turns (put_back gs i g) s'

  module _ (zero_value : R) where
    -- The loop that starts them: the `i`-th goroutine is the one for the `i`-th target.
    unfoldable pub start_goroutines : (String → Goroutine S R) → ℕ → List String → ℕ → Goroutine S R
    start_goroutines job k [] i = done zero_value
    start_goroutines job k (t ∷ ts) i = if eqb k i then job t else start_goroutines job (suc k) ts i

    abbrev pub result_of : Goroutine S R → R
    result_of (done r) = r
    result_of (call change next) = zero_value

    -- The slice `results` after these turns.
    unfoldable pub interleaved : (String → Goroutine S R) → List ℕ → List String → S → List R × S
    unfolding run_turns start_goroutines
    interleaved job turns targets s =
        let (gs, s') = run_turns turns (start_goroutines job 0 targets) s in
        (collect (λ i. result_of (gs i)) 0 targets, s')

    abbrev pub IsDone : Goroutine S R → Type 0
    IsDone (done r) = Unit
    IsDone (call change next) = ⊥

    abbrev pub DoneFrom : ℕ → (ℕ → Goroutine S R) → List String → Type 0
    DoneFrom k gs [] = Unit
    DoneFrom k gs (t ∷ ts) = IsDone (gs k) × DoneFrom (suc k) gs ts

    -- `wg.Wait()` returns: the goroutine of each target is done.
    abbrev pub AllDone : (String → Goroutine S R) → List ℕ → List String → S → Type 0
    AllDone job turns targets s =
        DoneFrom 0 (run_turns turns (start_goroutines job 0 targets) s).0 targets
