-- ===== src/Server/Tools/Exec.antt =====
-- `ExecInCluster` and `ExecInClusterReadonly` as a whole.
use capo_shell_mcp.Prelude.{
  ℕ, ◌≡◌, ◌≢◌, refl, ap, String, Bool, true, List, [], ◌∷◌, ◌++◌, map, All, Result, ok,
  bad_cluster_entry, invalid_target,
}
use capo_shell_mcp.Capi.Target.Laws.{slashes}
use capo_shell_mcp.Capi.Resolve.{resolve_cluster_patterns}
use capo_shell_mcp.Capi.Resolve.Dedupe.{first_occurrences}
use capo_shell_mcp.Capi.Resolve.Strict.{resolve_strict_iff, resolve_strict_err}
use capo_shell_mcp.Config.Load.{AppConfig}
use capo_shell_mcp.Server.Outside.{Outside, State}
use capo_shell_mcp.Server.Listing.{all_known_clusters}
use capo_shell_mcp.Server.Tools.{
  CallToolResult, error_text, text_result, ListClustersEntry, KubeconfigResult, ClusterExecResult,
  exec_failed, exec_targets, exec_in_cluster_fan_out, answered,
}
use capo_shell_mcp.FanOut.{any_failed}
use capo_shell_mcp.FanOut.Laws.{IsSchedule}
use capo_shell_mcp.Server.Tools.FanOut.{target_id, exec_targets-clusters}

module _ {X C : Type 0} (out : Outside X C) (cfg : AppConfig)
    (marshal_entries : List ListClustersEntry → Result String)
    (marshal_kubeconfigs : List KubeconfigResult → Result String)
    (marshal_execs : List ClusterExecResult → Result String)
    (schedule : List String → List (ℕ × String)) where
  abbrev pub exec_in_cluster :
      List String → List String → String → Bool → State X → Result CallToolResult × State X
  exec_in_cluster =
      exec_in_cluster_fan_out out cfg marshal_entries marshal_kubeconfigs marshal_execs schedule

  -- For a command that is not empty and entries that all have three slashes, at least one, and
  -- whatever the order of the goroutines: the answer is made of results that name the clusters of
  -- the first occurrences of the entries, in their order, and is marked as an error if one of them
  -- has an error or an exit code that is not 0.
  pub exec_in_cluster_results :
      (p : String) (ps : List String) (c : String) (cs : List String) (stdin : String)
      (readonly : Bool) (s : State X)
      → ((ts : List String) → IsSchedule (schedule ts) ts)
      → All (λ u. slashes u ≡ 3) (p ∷ ps)
      → (results : List ClusterExecResult) × (map (λ r. r.cluster) results
          ≡ map target_id (first_occurrences (p ∷ ps)))
        × ((exec_in_cluster (p ∷ ps) (c ∷ cs) stdin readonly s).0
            ≡ answered (any_failed exec_failed results) (marshal_execs results))
  unfolding exec_in_cluster_fan_out
  exec_in_cluster_results p ps c cs stdin readonly s sched three =
      let found =
        (resolve_strict_iff (all_known_clusters out cfg) (p ∷ ps) s (first_occurrences (p ∷ ps))).1
          (three, refl) in
      let s' : State X =
        (resolve_cluster_patterns (all_known_clusters out cfg) (p ∷ ps) true s).1 in
      let targets : List String = first_occurrences (p ∷ ps) in
      (
        (exec_targets out cfg (schedule targets) targets (c ∷ cs) stdin readonly s').0,
        exec_targets-clusters out cfg (c ∷ cs) stdin readonly (schedule targets) targets s'
            (sched targets),
        rw (found, exec_in_cluster_fan_out) refl,
      )

  -- If an entry does not have three slashes, and all before it do, the answer of a command that is
  -- not empty is the error that names the entry, and the state is the one before the call.
  pub exec_in_cluster_bad_entry :
      (us vs : List String) (u c : String) (cs : List String) (stdin : String) (readonly : Bool)
      (s : State X)
      → All (λ v. slashes v ≡ 3) us
      → slashes u ≢ 3
      → exec_in_cluster (us ++ u ∷ vs) (c ∷ cs) stdin readonly s
        ≡ (ok (text_result (error_text (bad_cluster_entry u (invalid_target u))) true), s)
  unfolding exec_in_cluster_fan_out
  exec_in_cluster_bad_entry [] vs u c cs stdin readonly s h n =
      let e = resolve_strict_err (all_known_clusters out cfg) [] vs u s h n in
      rw (e, exec_in_cluster_fan_out)
        (ap
          (λ r. (ok (text_result (error_text (bad_cluster_entry u (invalid_target u))) true), r.1))
          e)
  exec_in_cluster_bad_entry (v ∷ us) vs u c cs stdin readonly s h n =
      let e = resolve_strict_err (all_known_clusters out cfg) (v ∷ us) vs u s h n in
      rw (e, exec_in_cluster_fan_out)
        (ap
          (λ r. (ok (text_result (error_text (bad_cluster_entry u (invalid_target u))) true), r.1))
          e)
