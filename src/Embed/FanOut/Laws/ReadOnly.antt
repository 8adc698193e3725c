-- ===== src/Embed/FanOut/Laws/ReadOnly.antt =====
-- Embedded tools that are read-only.
use capo_shell_mcp.Prelude.{
  ℕ, String, ◌≡◌, ◌↔◌, refl, ap, ◌∙◌, true, false, List, ◌∷◌, map, contains, In, NoDup, Map, lookup,
  none, some, Result, ok, if◌then◌else◌,
}
use capo_shell_mcp.FanOut.{any_failed}
use capo_shell_mcp.FanOut.Laws.{IsSchedule}
use capo_shell_mcp.Capi.Resolve.{resolve_cluster_patterns}
use capo_shell_mcp.Capi.Resolve.Select.{SelectedBy}
use capo_shell_mcp.Capi.Resolve.Laws.{resolve_loose_lem}
use capo_shell_mcp.Embed.Provider.{TargetResolver}
use capo_shell_mcp.Embed.Request.{Request, Handler, PerClusterToolResult, Json}
use capo_shell_mcp.Embed.FanOut.{
  clusters_parameter_name, tool_failed, answer, arguments_of, clusters_of_targets,
  list_known_clusters, run_targets, run_fan_out, run_all, run_patterns, wrapped,
}
use capo_shell_mcp.Embed.FanOut.Laws.{
  run_targets-clusters, wrapped-run_clusters, run_clusters-none, run_clusters-ok,
}

module _ {E X : Type 0} (js : Json) (resolver : TargetResolver X)
    (schedule : List String → List (ℕ × String))
    (sched : (ts : List String) → IsSchedule (schedule ts) ts) (handler : Handler E X)
    (req : Request E) (x : X) {args : Map String} (parsed : arguments_of js resolver req ≡ ok args)
    {all : List String} {x' : X} (listing : resolver.list_targets x ≡ (ok all, x')) where
  -- The call ends with a result for each of these targets.
  abbrev pub Covers : List String → Type 0
  Covers targets =
      (results : List PerClusterToolResult) × (map (λ r. r.cluster) results ≡ targets)
      × ((wrapped js resolver schedule handler true req x).0
          ≡ ok (answer (any_failed tool_failed results) (js.marshal_results results)))

  Covers-of_run :
      (targets : List String) (y : X)
      → wrapped js resolver schedule handler true req x ≡ (
        ok (run_fan_out js resolver schedule handler req targets y).0,
        (run_fan_out js resolver schedule handler req targets y).1,
      )
      → Covers targets
  unfolding run_fan_out
  Covers-of_run targets y h = (
    (run_targets js resolver schedule handler req targets y).0,
    run_targets-clusters js resolver handler req schedule targets y (sched targets),
    ap (λ r. r.0) h,
  )

  run_all-run_fan_out : run_all js resolver schedule handler true req x ≡ (
    ok (run_fan_out js resolver schedule handler req all x').0,
    (run_fan_out js resolver schedule handler req all x').1,
  )
  unfolding run_all
  run_all-run_fan_out = rw (listing) refl

  -- A read-only tool without `clusters` covers every target of the provider, in the order that it lists them.
  pub wrapped_omitted : lookup clusters_parameter_name args ≡ none → Covers all
  wrapped_omitted l = Covers-of_run all x' (
      wrapped-run_clusters js resolver schedule handler true req x parsed
      ∙ run_clusters-none js resolver schedule handler true req x l
      ∙ run_all-run_fan_out)

  list_known_clusters_lem : list_known_clusters resolver x ≡ (ok (clusters_of_targets all), x')
  unfolding list_known_clusters
  list_known_clusters_lem = rw (listing) refl

  module _ {raw : String} {p : String} {ps : List String}
      (l : lookup clusters_parameter_name args ≡ some raw)
      (u : js.unmarshal_strings raw ≡ ok (p ∷ ps)) (filled : contains "" (p ∷ ps) ≡ false) where
    abbrev resolved : Result (List String) × X
    resolved = resolve_cluster_patterns (list_known_clusters resolver) (p ∷ ps) false x

    run_patterns_of_ok :
        (out : List String)
        → resolved.0 ≡ ok out
        → run_patterns js resolver schedule handler true req (p ∷ ps) x ≡ (
          ok (run_fan_out js resolver schedule handler req out resolved.1).0,
          (run_fan_out js resolver schedule handler req out resolved.1).1,
        )
    unfolding run_patterns
    run_patterns_of_ok out e = rw (filled, if◌then◌else◌, e) refl

    -- A read-only tool, for texts that resolve against the provider's list, none of them empty: the
    -- targets of the results are different, and are those that the texts select among the listed
    -- targets; targets that do not parse are not selected.
    pub wrapped_patterns :
        {out : List String}
        → resolved.0 ≡ ok out
        → Covers out
          × NoDup out
          × ((t : String) → In t out ↔ SelectedBy (clusters_of_targets all) (p ∷ ps) t)
    wrapped_patterns {out} e =
        let known = list_known_clusters resolver in
        let lists = ap (λ r. r.0) list_known_clusters_lem in
        (
          Covers-of_run out resolved.1 (
              wrapped-run_clusters js resolver schedule handler true req x parsed
              ∙ run_clusters-ok js resolver schedule handler true req x l u
              ∙ run_patterns_of_ok out e),
          (resolve_loose_lem known (p ∷ ps) x "" lists e).0,
          λ t. (resolve_loose_lem known (p ∷ ps) x t lists e).1,
        )
