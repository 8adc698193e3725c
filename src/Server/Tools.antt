-- ===== src/Server/Tools.antt =====
-- internal/server/tools.go. `marshal` is `json.MarshalIndent`; the order of the goroutines is an
-- argument.
mod Results
pub mod FanOut
pub mod Exec
pub mod Get
pub mod Listed
pub use Results.*
use capo_shell_mcp.Prelude.{
  ℕ, suc, ℤ, pos, eqb, String, Bool, true, false, not, ◌&&◌, ◌||◌, Option, none, some, List, [],
  ◌∷◌, map, lookup, contains, Result, Error, ok, err, no_command, unknown_kubeconfig, ◌==◌,
  if◌then◌else◌,
}
use capo_shell_mcp.Capi.Target.{CapiCluster, format_target, parse_target}
use capo_shell_mcp.Capi.Resolve.{resolve_cluster_patterns}
use capo_shell_mcp.Config.Load.{AppConfig, KubeconfigSource}
use capo_shell_mcp.Exec.{Outcome, with_kubeconfig}
use capo_shell_mcp.FanOut.{fan_out, any_failed}
use capo_shell_mcp.Action.{Action, pure, raise, lift, ◌>>=◌, ◌>>◌}
use capo_shell_mcp.Server.Outside.{Outside, State, outer, ResolvedCluster}
use capo_shell_mcp.Server.Listing.{all_resolved_clusters, all_known_clusters}
use capo_shell_mcp.Server.Kubeconfig.{cached_kubeconfig, read_only_kubeconfig, resolve_target}

abbrev is_some {ℓ} : {A : Type ℓ} → Option A → Bool
is_some none = false
is_some (some _) = true

-- *r.ExitCode != 0
abbrev is_zero : ℤ → Bool
is_zero (pos ℕ.zero) = true
is_zero _ = false

abbrev non_zero : Option ℤ → Bool
non_zero none = false
non_zero (some n) = not (is_zero n)

abbrev pub exec_failed : ClusterExecResult → Bool
exec_failed r = is_some r.error || non_zero r.exit_code

-- The text of an error is taken not to be empty.
abbrev pub kubeconfig_failed : KubeconfigResult → Bool
kubeconfig_failed r = is_some r.error

abbrev pub keep : List String → List ResolvedCluster → List ResolvedCluster
keep matched [] = []
keep matched (r ∷ rs) =
    let rest = keep matched rs in
    if contains (format_target r.cluster) matched then r ∷ rest else rest

abbrev pub list_clusters_entries : List ResolvedCluster → List ListClustersEntry
list_clusters_entries = map (λ r. record { cluster = r.cluster; target = format_target r.cluster })

-- The clusters of `ListClusters` after the filter, or the error that is shown.
unfoldable pub filtered : List ResolvedCluster → List String → Result (List ResolvedCluster)
filtered resolved [] = ok resolved
filtered resolved (p ∷ ps) =
    elim (resolve_cluster_patterns {S = Unit {0}} (λ s. (ok (map (λ r. r.cluster) resolved), s))
      (p ∷ ps) false tt).0 [ ok matched ↦ ok (keep matched resolved) | err e ↦ err e ]

abbrev pub zero_exec_result : ClusterExecResult
zero_exec_result = record {
  cluster = no_cluster;
  stdout = none;
  stderr = none;
  exit_code = none;
  error = none;
}

abbrev pub zero_kubeconfig_result : KubeconfigResult
zero_kubeconfig_result = record { cluster = ""; kubeconfig = ""; error = none }

-- The result, or an error of `marshal`.
abbrev pub answered : Bool → Result String → Result CallToolResult
answered failed (ok b) = ok (text_result (json b) failed)
answered failed (err e) = err e

abbrev pub no_clusters_result : CallToolResult
no_clusters_result =
    text_result
      (plain
        "clusters is required and must be a non-empty array of full kubeconfig/context/namespace/name paths")
      true

module _ {X C : Type 0} (out : Outside X C) (cfg : AppConfig) where
  -- The part of `execOneTarget` after the parse.
  unfoldable pub exec_in :
      KubeconfigSource → ClusterId → List String → String → Bool → Action (State X) Outcome
  exec_in src id command stdin readonly = do
    kc ← cached_kubeconfig out cfg src id.context id.namespace id.name
    (if readonly
        then (do
          ro_kc ← read_only_kubeconfig out cfg kc
          outer (with_kubeconfig out.system out.execer ro_kc [] command stdin))
        else (do
          clients ← outer (out.clients_for_context src id.context)
          os_env ← outer (out.fetch_open_stack_env clients id.namespace id.name)
          outer (with_kubeconfig out.system out.execer kc os_env command stdin)))

  unfoldable pub exec_one_target :
      List String → String → Bool → String → State X → ClusterExecResult × State X
  unfolding exec_in
  exec_one_target command stdin readonly target s = elim (parse_target target) [
    | err e ↦ (cluster_err_result no_cluster e, s)
    | ok (kubeconfig_name, context, namespace, name) ↦
        (let id : ClusterId = record {
          kubeconfig = kubeconfig_name;
          context = context;
          namespace = namespace;
          name = name;
        } in
          elim (lookup kubeconfig_name cfg.kubeconfigs) [
            | none ↦ (cluster_err_result id (unknown_kubeconfig kubeconfig_name), s)
            | some src ↦
                (let (r, s') = exec_in src id command stdin readonly s in (settled id r, s'))
          ])
  ]

  -- The loop of `execInClusterFanOut` that starts the goroutines, and the wait for them.
  unfoldable pub exec_targets :
      List (ℕ × String)
      → List String
      → List String
      → String
      → Bool
      → State X
      → List ClusterExecResult × State X
  unfolding fan_out exec_one_target
  exec_targets order targets command stdin readonly =
      fan_out (exec_one_target command stdin readonly) zero_exec_result order targets

  unfoldable pub kubeconfig_of_target : Bool → String → Action (State X) String
  unfolding resolve_target read_only_kubeconfig
  kubeconfig_of_target readonly target = do
    admin_kc ← resolve_target out cfg target
    (if readonly then read_only_kubeconfig out cfg admin_kc else pure admin_kc)

  -- One goroutine of `getClusterKubeconfigFanOut`.
  unfoldable pub get_one_target : Bool → String → State X → KubeconfigResult × State X
  unfolding kubeconfig_of_target
  get_one_target readonly target s =
      let (r, s') = kubeconfig_of_target readonly target s in (given target r, s')

  unfoldable pub get_targets :
      List (ℕ × String) → List String → Bool → State X → List KubeconfigResult × State X
  unfolding fan_out get_one_target
  get_targets order targets readonly =
      fan_out (get_one_target readonly) zero_kubeconfig_result order targets

  module _ (marshal_entries : List ListClustersEntry → Result String)
      (marshal_kubeconfigs : List KubeconfigResult → Result String)
      (marshal_execs : List ClusterExecResult → Result String)
      -- the order in which the goroutines for these targets run
      (schedule : List String → List (ℕ × String)) where
    unfoldable pub list_clusters : List String → Action (State X) CallToolResult
    unfolding filtered
    list_clusters clusters = do
      resolved ← all_resolved_clusters out cfg
      (elim (filtered resolved clusters) [
        | err e ↦ pure (text_result (error_text e) true)
        | ok kept ↦ lift (answered false (marshal_entries (list_clusters_entries kept)))
      ])

    unfoldable pub get_cluster_kubeconfig_fan_out :
        List String → Bool → State X → Result CallToolResult × State X
    unfolding get_targets
    get_cluster_kubeconfig_fan_out clusters readonly s =
        let (resolved, s') =
          resolve_cluster_patterns (all_known_clusters out cfg) clusters false s in
        elim resolved [
          | err e ↦ (ok (text_result (error_text e) true), s')
          | ok targets ↦
              (let (results, s'') = get_targets (schedule targets) targets readonly s' in
                (
                  answered (any_failed kubeconfig_failed results) (marshal_kubeconfigs results),
                  s'',
                ))
        ]

    unfoldable pub exec_in_cluster_fan_out :
        List String → List String → String → Bool → State X → Result CallToolResult × State X
    unfolding exec_targets
    exec_in_cluster_fan_out clusters [] stdin readonly s = (err no_command, s)
    exec_in_cluster_fan_out [] (c ∷ cs) stdin readonly s = (ok no_clusters_result, s)
    exec_in_cluster_fan_out (p ∷ ps) (c ∷ cs) stdin readonly s =
        let (resolved, s') =
          resolve_cluster_patterns (all_known_clusters out cfg) (p ∷ ps) true s in
        elim resolved [
          | err e ↦ (ok (text_result (error_text e) true), s')
          | ok targets ↦
              (let (results, s'') =
                  exec_targets (schedule targets) targets (c ∷ cs) stdin readonly s' in
                (answered (any_failed exec_failed results) (marshal_execs results), s''))
        ]
