-- ===== src/Embed/FanOut/Interleaved/Tests.antt =====
-- Tests of two handlers that take turns; the state counts their calls.
use capo_shell_mcp.Prelude.{
  ℕ, suc, ◌≡◌, refl, String, Bool, true, false, not, List, [], ◌∷◌, map, ok, insert, delete,
}
use capo_shell_mcp.FanOut.{any_failed, enumerate}
use capo_shell_mcp.FanOut.Interleaved.{
  done, call, run_turns, start_goroutines, advance, interleaved,
}
use capo_shell_mcp.Embed.Provider.{TargetResolver}
use capo_shell_mcp.Embed.Request.{Request, PerClusterToolResult, Json, text}
use capo_shell_mcp.Embed.FanOut.{tool_failed, answer, run_fan_out, synth_args}
use capo_shell_mcp.Embed.FanOut.Interleaved.{
  Turned, whole, target_goroutine, run_turned, run_turned_targets, IsComplete, run_turned-clusters,
  run_turned-run_fan_out,
}

abbrev resolver : TargetResolver ℕ
resolver = record { resolve_target = λ target n. (ok target, n); list_targets = λ n. (ok [], n) }

abbrev js : Json
js = record {
  unmarshal_args = λ raw. ok [];
  unmarshal_strings = λ raw. ok [];
  marshal_text = λ t. t;
  marshal_args = λ args. ok "args";
  marshal_results = λ rs. ok "results";
}

-- Two calls; the second one fails if it finds an odd count.
abbrev parity : ℕ → Bool
parity ℕ.zero = false
parity (suc n) = not (parity n)

abbrev counting : Turned String ℕ
counting req =
    call suc (λ n. call suc (λ m. done (ok (record { content = []; is_error = parity m }))))

abbrev constant : Turned String ℕ
constant req =
    call suc
      (λ n. call suc (λ m. done (ok (record { content = text "ok" ∷ []; is_error = false }))))

abbrev request : Request String
request = record { extra = "session"; name = "pods_list"; arguments = "" }

abbrev two : List String
two = "a/b/c/d" ∷ "a/b/c/e" ∷ []

abbrev turns : List ℕ
turns = 0 ∷ 1 ∷ 1 ∷ 0 ∷ []

-- The order of the turns is seen in the results.
differs :
    (map (λ r. r.is_error) (run_turned_targets js resolver counting request turns two 0).0
      ≡ true ∷ false ∷ [])
    × (map
          (λ r. r.is_error)
          (run_turned_targets js resolver counting request (0 ∷ 0 ∷ 1 ∷ 1 ∷ []) two 0).0
        ≡ true ∷ true ∷ [])
unfolding run_turned_targets interleaved run_turns start_goroutines advance target_goroutine
    synth_args insert delete
differs = (refl, refl)

counting-IsComplete : IsComplete js resolver counting request turns two 0
unfolding run_turns start_goroutines advance target_goroutine synth_args insert delete
counting-IsComplete = (tt, (tt, tt))

constant-IsComplete : IsComplete js resolver constant request turns two 0
unfolding run_turns start_goroutines advance target_goroutine synth_args insert delete
constant-IsComplete = (tt, (tt, tt))

run_turned-clusters_example :
    (results : List PerClusterToolResult) × (map (λ r. r.cluster) results ≡ two)
    × ((run_turned js resolver counting request turns two 0).0
        ≡ answer (any_failed tool_failed results) (ok "results"))
run_turned-clusters_example =
    run_turned-clusters js resolver counting request turns two 0 counting-IsComplete

run_turned-run_fan_out_test :
    (run_turned js resolver constant request turns two 0).0
    ≡ (run_fan_out js resolver (enumerate 0) (whole constant) request two 7).0
run_turned-run_fan_out_test =
    run_turned-run_fan_out js resolver constant
      (λ req. ok (record { content = text "ok" ∷ []; is_error = false })) (λ req n m. refl)
      (enumerate 0) request turns two 0 7 constant-IsComplete (λ i t. (λ h. h, λ h. h))
