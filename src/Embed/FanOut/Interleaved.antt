-- ===== src/Embed/FanOut/Interleaved.antt =====
-- runFanOut of internal/embed/fanout.go with handlers that take turns: a handler is the calls that it
-- makes one after the other, and the goroutines of the targets interleave between them.
mod Tests
use capo_shell_mcp.Prelude.{
  ℕ, ◌≡◌, refl, sym, ap, ◌∙◌, inl, inr, String, Bool, List, [], ◌∷◌, map, Map, Result, Error, ok,
  err, Result-cases,
}
use capo_shell_mcp.Action.{Action}
use capo_shell_mcp.FanOut.{any_failed, fan_out}
use capo_shell_mcp.FanOut.Laws.{IsSchedule, fan_out-map, map_id}
use capo_shell_mcp.FanOut.Interleaved.{Goroutine, done, call, run_whole, interleaved, AllDone}
use capo_shell_mcp.FanOut.Interleaved.Laws.{Ends, Ends-run_whole, interleaved-map}
use capo_shell_mcp.Server.Tools.{CallToolResult}
use capo_shell_mcp.Embed.Provider.{TargetResolver}
use capo_shell_mcp.Embed.Request.{Request, HandlerResult, Handler, PerClusterToolResult, Json}
use capo_shell_mcp.Embed.FanOut.{
  tool_failed, zero_tool_result, per_cluster, answer, args_or_none, synth_args, arguments_of,
  call_one_target, run_targets, run_fan_out,
}

-- A handler by its calls.
abbrev pub Turned : Type 0 → Type 0 → Type 0
Turned E X = Request E → Goroutine X (Result HandlerResult)

-- The handler that makes all of its calls at once.
abbrev pub whole : {E X : Type 0} → Turned E X → Handler E X
whole handler req = run_whole (handler req)

abbrev then_settle :
    {X : Type 0} → String → Goroutine X (Result HandlerResult) → Goroutine X PerClusterToolResult
then_settle target (done r) = done (per_cluster target r)
then_settle target (call change next) = call change (λ x. then_settle target (next x))

per_cluster-cluster : (t : String) (r : Result HandlerResult) → (per_cluster t r).cluster ≡ t
per_cluster-cluster t (ok r) = refl
per_cluster-cluster t (err e) = refl

then_settle-Ends :
    {X : Type 0} (Q : PerClusterToolResult → Type 0) (t : String)
    (g : Goroutine X (Result HandlerResult))
    → Ends (λ r. Q (per_cluster t r)) g
    → Ends Q (then_settle t g)
then_settle-Ends Q t (done r) h = h
then_settle-Ends Q t (call change next) h = λ x. then_settle-Ends Q t (next x) (h x)

Ends-always : {X R : Type 0} (Q : R → Type 0) → ((r : R) → Q r) → (g : Goroutine X R) → Ends Q g
Ends-always Q h (done r) = h r
Ends-always Q h (call change next) = λ x. Ends-always Q h (next x)

Ends-map :
    {X R : Type 0} (P Q : R → Type 0)
    → ((r : R) → P r → Q r)
    → (g : Goroutine X R) → Ends P g
    → Ends Q g
Ends-map P Q h (done r) p = h r p
Ends-map P Q h (call change next) p = λ x. Ends-map P Q h (next x) (p x)

module _ {E X : Type 0} (js : Json) (resolver : TargetResolver X) where
  unfoldable pub target_goroutine :
      Turned E X → Request E → Map String → String → Goroutine X PerClusterToolResult
  unfolding synth_args
  target_goroutine handler req orig target = elim (js.marshal_args (synth_args js orig target)) [
    | err e ↦ done (per_cluster target (err e))
    | ok raw ↦ then_settle target (handler (record req { arguments = raw }))
  ]

  unfoldable pub run_turned_targets :
      Turned E X → Request E → List ℕ → List String → X → List PerClusterToolResult × X
  unfolding target_goroutine interleaved
  run_turned_targets handler req turns targets =
      interleaved zero_tool_result
        (target_goroutine handler req (args_or_none (arguments_of js resolver req))) turns targets

  -- `turns` says which goroutine takes each turn.
  unfoldable pub run_turned : Turned E X → Request E → List ℕ → List String → X → CallToolResult × X
  unfolding run_turned_targets
  run_turned handler req turns targets x =
      let (results, x') = run_turned_targets handler req turns targets x in
      (answer (any_failed tool_failed results) (js.marshal_results results), x')

  -- The turns are enough for every goroutine.
  abbrev pub IsComplete : Turned E X → Request E → List ℕ → List String → X → Type 0
  IsComplete handler req turns targets x =
      AllDone zero_tool_result
        (target_goroutine handler req (args_or_none (arguments_of js resolver req))) turns targets x

  target_goroutine-Ends :
      (handler : Turned E X) (req : Request E) (orig : Map String) (t : String)
      → Ends (λ r. r.cluster ≡ t) (target_goroutine handler req orig t)
  unfolding target_goroutine
  target_goroutine-Ends handler req orig t =
      elim (Result-cases (js.marshal_args (synth_args js orig t))) [
        | inl (raw, i) ↦
            rw (i, target_goroutine)
              (then_settle-Ends (λ r. r.cluster ≡ t) t (handler (record req { arguments = raw }))
                (Ends-always _ (per_cluster-cluster t) (handler (record req { arguments = raw }))))
        | inr (e, i) ↦ rw (i, target_goroutine) refl
      ]

  -- However the handlers of the targets interleave, once all are done: the results name the targets,
  -- each in its place, and the answer is made of them, as an error if one of them has failed.
  pub run_turned-clusters :
      (handler : Turned E X) (req : Request E) (turns : List ℕ) (targets : List String) (x : X)
      → IsComplete handler req turns targets x
      → (results : List PerClusterToolResult) × (map (λ r. r.cluster) results ≡ targets)
        × ((run_turned handler req turns targets x).0
            ≡ answer (any_failed tool_failed results) (js.marshal_results results))
  unfolding run_turned run_turned_targets
  run_turned-clusters handler req turns targets x all = (
    (run_turned_targets handler req turns targets x).0,
    interleaved-map zero_tool_result _ (λ r. r.cluster) (λ t. t)
          (target_goroutine-Ends handler req (args_or_none (arguments_of js resolver req))) turns
          targets x all
        ∙ map_id targets,
    refl,
  )

  -- The result of a target, if the handler gives `answer_of` whatever it finds.
  abbrev expected :
      (Request E → Result HandlerResult) → Request E → Map String → String → PerClusterToolResult
  expected answer_of req orig t = elim (js.marshal_args (synth_args js orig t)) [
    | err e ↦ per_cluster t (err e)
    | ok raw ↦ per_cluster t (answer_of (record req { arguments = raw }))
  ]

  module _ (handler : Turned E X) (answer_of : Request E → Result HandlerResult)
      (steady : (req : Request E) → Ends (λ r. r ≡ answer_of req) (handler req)) where
    target_goroutine-expected :
        (req : Request E) (orig : Map String) (t : String)
        → Ends (λ r. r ≡ expected answer_of req orig t) (target_goroutine handler req orig t)
    unfolding target_goroutine
    target_goroutine-expected req orig t =
        elim (Result-cases (js.marshal_args (synth_args js orig t))) [
          | inl (raw, i) ↦
              rw (i, target_goroutine, expected)
                (then_settle-Ends
                  (λ r. r ≡ per_cluster t (answer_of (record req { arguments = raw }))) t
                  (handler (record req { arguments = raw }))
                  (Ends-map (λ r. r ≡ answer_of (record req { arguments = raw })) _
                    (λ r e. ap (per_cluster t) e) (handler (record req { arguments = raw }))
                    (steady (record req { arguments = raw }))))
          | inr (e, i) ↦ rw (i, target_goroutine, expected) refl
        ]

    call_one_target-expected :
        (req : Request E) (orig : Map String) (t : String) (x : X)
        → (call_one_target js resolver (whole handler) req orig t x).0
          ≡ expected answer_of req orig t
    unfolding call_one_target
    call_one_target-expected req orig t x =
        elim (Result-cases (js.marshal_args (synth_args js orig t))) [
          | inl (raw, i) ↦
              rw (i, call_one_target, expected)
                (ap (per_cluster t) (
                  Ends-run_whole (λ r. r ≡ answer_of (record req { arguments = raw }))
                    (handler (record req { arguments = raw })) x
                    (steady (record req { arguments = raw }))))
          | inr (e, i) ↦ rw (i, call_one_target, expected) refl
        ]

    -- If what the handler gives does not depend on what it finds, runFanOut with goroutines that
    -- interleave, once all are done, answers as it does with goroutines that run one after the other
    -- as a whole, in any order.
    pub run_turned-run_fan_out :
        (schedule : List String → List (ℕ × String)) (req : Request E) (turns : List ℕ)
        (targets : List String) (x y : X)
        → IsComplete handler req turns targets x
        → IsSchedule (schedule targets) targets
        → (run_turned handler req turns targets x).0
          ≡ (run_fan_out js resolver schedule (whole handler) req targets y).0
    unfolding run_turned run_turned_targets run_fan_out run_targets
    run_turned-run_fan_out schedule req turns targets x y all sched =
        let orig = args_or_none (arguments_of js resolver req) in
        ap (λ rs. answer (any_failed tool_failed rs) (js.marshal_results rs))
          (sym (map_id (run_turned_targets handler req turns targets x).0)
            ∙ interleaved-map zero_tool_result (target_goroutine handler req orig) (λ r. r)
                (expected answer_of req orig) (target_goroutine-expected req orig) turns targets x
                all
            ∙ sym (
                fan_out-map (call_one_target js resolver (whole handler) req orig) (λ r. r)
                  (expected answer_of req orig) (call_one_target-expected req orig) zero_tool_result
                  (schedule targets) targets y sched)
            ∙ map_id (run_targets js resolver schedule (whole handler) req targets y).0)
