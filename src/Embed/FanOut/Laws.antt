-- ===== src/Embed/FanOut/Laws.antt =====
-- The results of a fan-out of an embedded tool, and the arguments of its calls.
pub mod Strict
pub mod ReadOnly
use capo_shell_mcp.Prelude.{
  ℕ, String, ◌≡◌, ◌≢◌, ◌⊎◌, inl, inr, refl, sym, ap, ◌∙◌, Bool, Option, none, some, List, [], map,
  Map, lookup, insert, delete, lookup-insert, lookup-delete, Result, ok, err, Result-cases, arith,
  eq_iff, ◌==◌, if◌then◌else◌,
}
use capo_shell_mcp.FanOut.Laws.{IsSchedule, fan_out-targets}
use capo_shell_mcp.Embed.Provider.{TargetResolver, target_parameter_name}
use capo_shell_mcp.Embed.Request.{Request, HandlerResult, Handler, PerClusterToolResult, Json}
use capo_shell_mcp.Embed.FanOut.{
  clusters_parameter_name, synth_args, call_one_target, run_targets, run_all, run_patterns,
  run_clusters, wrapped, per_cluster, args_or_none, arguments_of, zero_tool_result,
}

-- The arguments of the call for one target are those of the request, without `clusters` and with
-- the target as `cluster`.
pub synth_args-lookup :
    (js : Json) (orig : Map String) (target k : String)
    → lookup k (synth_args js orig target) ≡ (
        if target_parameter_name == k
        then some (js.marshal_text target)
        else if clusters_parameter_name == k
        then none
        else lookup k orig)
unfolding synth_args
synth_args-lookup js orig target k = ground (
  arith,
  lookup-insert target_parameter_name k (js.marshal_text target)
      (delete clusters_parameter_name orig),
  lookup-delete clusters_parameter_name k orig,
)

per_cluster-cluster : (t : String) (r : Result HandlerResult) → (per_cluster t r).cluster ≡ t
per_cluster-cluster t (ok r) = refl
per_cluster-cluster t (err e) = refl

module _ {E X : Type 0} (js : Json) (resolver : TargetResolver X) (handler : Handler E X)
    (req : Request E) where
  call_one_target-cluster :
      (orig : Map String) (t : String) (x : X)
      → (call_one_target js resolver handler req orig t x).0.cluster ≡ t
  unfolding call_one_target
  call_one_target-cluster orig t x = elim (Result-cases (js.marshal_args (synth_args js orig t))) [
    | inl (raw, i) ↦
        rw (i, call_one_target)
          (per_cluster-cluster t (handler (record req { arguments = raw }) x).0)
    | inr (e, i) ↦ rw (i, call_one_target) refl
  ]

  pub run_targets-clusters :
      (schedule : List String → List (ℕ × String)) (targets : List String) (x : X)
      → IsSchedule (schedule targets) targets
      → map (λ r. r.cluster) (run_targets js resolver schedule handler req targets x).0 ≡ targets
  unfolding run_targets
  run_targets-clusters schedule targets x h =
      fan_out-targets
        (call_one_target js resolver handler req (args_or_none (arguments_of js resolver req)))
        (λ r. r.cluster) (call_one_target-cluster (args_or_none (arguments_of js resolver req)))
        zero_tool_result (schedule targets) targets x h

-- The steps of the wrapper.
module _ {E X : Type 0} (js : Json) (resolver : TargetResolver X)
    (schedule : List String → List (ℕ × String)) (handler : Handler E X) (read_only : Bool)
    (req : Request E) (x : X) where
  pub wrapped-run_clusters :
      {args : Map String}
      → arguments_of js resolver req ≡ ok args
      → wrapped js resolver schedule handler read_only req x
        ≡ run_clusters js resolver schedule handler read_only req
            (lookup clusters_parameter_name args)
            x
  unfolding wrapped
  wrapped-run_clusters h = rw (h, wrapped) refl

  pub run_clusters-none :
      {c : Option String}
      → c ≡ none
      → run_clusters js resolver schedule handler read_only req c x
        ≡ run_all js resolver schedule handler read_only req x
  unfolding run_clusters
  run_clusters-none h = rw (h, run_clusters) refl

  pub run_clusters-ok :
      {c : Option String} {raw : String} {patterns : List String}
      → c ≡ some raw
      → js.unmarshal_strings raw ≡ ok patterns
      → run_clusters js resolver schedule handler read_only req c x
        ≡ run_patterns js resolver schedule handler read_only req patterns x
  unfolding run_clusters
  run_clusters-ok h u = rw (h, run_clusters, u) refl
