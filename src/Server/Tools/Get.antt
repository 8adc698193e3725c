-- ===== src/Server/Tools/Get.antt =====
-- `GetClusterKubeconfig` and `GetClusterKubeconfigReadonly` as a whole.
use capo_shell_mcp.Prelude.{
  ℕ, ◌≡◌, ◌↔◌, refl, sym, subst, String, Bool, false, List, [], map, In, NoDup, Result, ok, err,
}
use capo_shell_mcp.Capi.Target.{CapiCluster}
use capo_shell_mcp.Capi.Resolve.{resolve_cluster_patterns}
use capo_shell_mcp.Capi.Resolve.Select.{SelectedBy}
use capo_shell_mcp.Capi.Resolve.Laws.{resolve_loose_lem}
use capo_shell_mcp.Config.Load.{AppConfig}
use capo_shell_mcp.Server.Outside.{Outside, State, ResolvedCluster}
use capo_shell_mcp.Server.Listing.{all_known_clusters, all_resolved_clusters}
use capo_shell_mcp.Server.Tools.{
  CallToolResult, ListClustersEntry, KubeconfigResult, ClusterExecResult, kubeconfig_failed,
  get_one_target, get_targets, given, zero_kubeconfig_result, get_cluster_kubeconfig_fan_out,
  answered, list_clusters, list_clusters_entries, kubeconfig_of_target,
}
use capo_shell_mcp.FanOut.{any_failed}
use capo_shell_mcp.FanOut.Laws.{IsSchedule, fan_out-targets}

given-cluster : (t : String) (r : Result String) → (given t r).cluster ≡ t
given-cluster t (ok kc) = refl
given-cluster t (err e) = refl

module _ {X C : Type 0} (out : Outside X C) (cfg : AppConfig)
    (marshal_entries : List ListClustersEntry → Result String)
    (marshal_kubeconfigs : List KubeconfigResult → Result String)
    (marshal_execs : List ClusterExecResult → Result String)
    (schedule : List String → List (ℕ × String)) where
  get_targets-clusters :
      (order : List (ℕ × String)) (targets : List String) (readonly : Bool) (s : State X)
      → IsSchedule order targets
      → map (λ r. r.cluster) (get_targets out cfg order targets readonly s).0 ≡ targets
  unfolding get_targets get_one_target
  get_targets-clusters order targets readonly s h =
      fan_out-targets (get_one_target out cfg readonly) (λ r. r.cluster)
        (λ t u. given-cluster t (kubeconfig_of_target out cfg readonly t u).0)
        zero_kubeconfig_result order targets s h

  abbrev pub get_cluster_kubeconfig : List String → Bool → State X → Result CallToolResult × State X
  get_cluster_kubeconfig =
      get_cluster_kubeconfig_fan_out out cfg marshal_entries marshal_kubeconfigs marshal_execs
        schedule

  -- Where the listing gives the clusters `known` and the patterns resolve, the answer is made of
  -- results that name, each once, exactly the targets that some pattern stands for, whatever the
  -- order of the goroutines; it is marked as an error if one of the results has an error.
  pub get_cluster_kubeconfig_results :
      (patterns : List String) (readonly : Bool) (s : State X) (t : String)
      {known : List CapiCluster} {targets : List String}
      → ((ts : List String) → IsSchedule (schedule ts) ts)
      → (all_known_clusters out cfg s).0 ≡ ok known
      → (resolve_cluster_patterns (all_known_clusters out cfg) patterns false s).0 ≡ ok targets
      → (results : List KubeconfigResult) × ((get_cluster_kubeconfig patterns readonly s).0
          ≡ answered (any_failed kubeconfig_failed results) (marshal_kubeconfigs results))
        × NoDup (map (λ r. r.cluster) results)
        × (In t (map (λ r. r.cluster) results) ↔ SelectedBy known patterns t)
  unfolding get_cluster_kubeconfig_fan_out
  get_cluster_kubeconfig_results patterns readonly s t {known} {targets} sched listed found =
      let s' : State X =
        (resolve_cluster_patterns (all_known_clusters out cfg) patterns false s).1 in
      let same = get_targets-clusters (schedule targets) targets readonly s' (sched targets) in
      let selected = resolve_loose_lem (all_known_clusters out cfg) patterns s t listed found in
      (
        (get_targets out cfg (schedule targets) targets readonly s').0,
        rw (found, get_cluster_kubeconfig_fan_out) refl,
        subst NoDup (sym same) selected.0,
        subst (λ l. In t l ↔ SelectedBy known patterns t) (sym same) selected.1,
      )

  -- Without a pattern the tools differ: `ListClusters` shows every cluster of the listing, and
  -- `GetClusterKubeconfig`, in both forms, gives an empty array, whatever the listing would give.
  pub no_filter_lem :
      (readonly : Bool) (s : State X) {resolved : List ResolvedCluster}
      → (all_resolved_clusters out cfg s).0 ≡ ok resolved
      → ((list_clusters out cfg marshal_entries marshal_kubeconfigs marshal_execs schedule [] s).0
          ≡ answered false (marshal_entries (list_clusters_entries resolved)))
        × ((get_cluster_kubeconfig [] readonly s).0 ≡ answered false (marshal_kubeconfigs []))
  unfolding list_clusters get_cluster_kubeconfig_fan_out get_targets resolve_cluster_patterns
  no_filter_lem readonly s h = (rw (h, list_clusters) refl, refl)
