-- ===== src/Server/Turns.antt =====
-- `execInClusterFanOut` of internal/server/tools.go with goroutines that take turns: each call of the
-- cache or of another package is one turn, in the order of Server/Kubeconfig and Server/Tools.
pub mod Laws
pub mod FanOut
mod Tests
use capo_shell_mcp.Prelude.{
  ℕ, String, Bool, true, Option, none, some, List, [], ◌∷◌, Map, lookup, Result, Error, ok, err,
  unknown_kubeconfig, empty_command, no_command, ◌==◌, if◌then◌else◌,
}
use capo_shell_mcp.Action.{Action, annotate, lift}
use capo_shell_mcp.Capi.Target.{parse_target}
use capo_shell_mcp.Capi.Store.{ProxyTarget, CachedKubeconfig, kubeconfig_key}
use capo_shell_mcp.Config.Load.{AppConfig, KubeconfigSource}
use capo_shell_mcp.Exec.{Outcome, outcome, write_temp_kubeconfig, exec_options}
use capo_shell_mcp.Capi.Resolve.{resolve_cluster_patterns}
use capo_shell_mcp.Server.Listing.{all_known_clusters}
use capo_shell_mcp.FanOut.{any_failed}
use capo_shell_mcp.FanOut.Interleaved.{Goroutine, done, call, interleaved}
use capo_shell_mcp.FanOut.Interleaved.Calls.{turn, and_then}
use capo_shell_mcp.Server.Outside.{Outside, State, outer}
use capo_shell_mcp.Server.Kubeconfig.{
  token_seconds, get_kubeconfig, set_kubeconfig, ensure, transformed, sshuttle_host_of,
}
use capo_shell_mcp.Server.Tools.{
  ClusterId, no_cluster, ClusterExecResult, cluster_err_result, settled, zero_exec_result,
  CallToolResult, text_result, error_text, no_clusters_result, answered, exec_failed,
}

-- What a chain of calls gives in a state, one turn for each.
abbrev pub Chain : Type 0 → Type 0 → Type 0
Chain X A = Goroutine (State X) (Result A)

module _ {X C : Type 0} (out : Outside X C) (cfg : AppConfig) where
  unfoldable pub reuse_turns : CachedKubeconfig → Chain X String
  reuse_turns cached = elim cached.proxy_target [
    | none ↦ done (ok cached.kubeconfig)
    | some t ↦ and_then (turn (ensure out cfg t)) (λ _. done (ok cached.kubeconfig))
  ]

  abbrev pub proxy_for_turns : String → Option (String × String) → Chain X (Option ProxyTarget)
  proxy_for_turns host none = done (ok none)
  proxy_for_turns host (some (ip, port)) =
      let t : ProxyTarget = record {
        sshuttle_host = host;
        api_server_ip = ip;
        api_server_port = port;
      } in
      and_then (turn (ensure out cfg t)) (λ _. done (ok (some t)))

  unfoldable pub find_proxy_turns : C → String → String → String → Chain X (Option ProxyTarget)
  find_proxy_turns clients host namespace cluster_name =
      if host == ""
      then done (ok none)
      else (and_then (turn (outer (out.fetch_api_server_info clients namespace cluster_name)))
          (proxy_for_turns host))

  unfoldable pub fetch_turns :
      KubeconfigSource → String → String → String → Chain X CachedKubeconfig
  unfolding find_proxy_turns
  fetch_turns src context namespace cluster_name =
      and_then (turn (outer (out.clients_for_context src context))) (λ clients.
        and_then (turn (outer (out.fetch_workload_kubeconfig clients namespace cluster_name)))
          (λ fetched. and_then (done (transformed out cfg fetched)) (λ kc.
            and_then
              (find_proxy_turns clients (sshuttle_host_of out cfg src) namespace cluster_name)
              (λ proxy. done (ok (record { kubeconfig = kc; proxy_target = proxy }))))))

  unfoldable pub fetch_and_store_turns :
      KubeconfigSource → String → String → String → Chain X String
  unfolding fetch_turns
  fetch_and_store_turns src context namespace cluster_name =
      and_then (fetch_turns src context namespace cluster_name) (λ entry.
        and_then
          (turn
            (set_kubeconfig out cfg (kubeconfig_key src.name context namespace cluster_name) entry))
          (λ _. done (ok entry.kubeconfig)))

  unfoldable pub cached_kubeconfig_turns :
      KubeconfigSource → String → String → String → Chain X String
  unfolding fetch_and_store_turns reuse_turns
  cached_kubeconfig_turns src context namespace cluster_name =
      and_then
        (turn (get_kubeconfig out cfg (kubeconfig_key src.name context namespace cluster_name)))
        (λ found. elim found [
          | some cached ↦ reuse_turns cached
          | none ↦ fetch_and_store_turns src context namespace cluster_name
        ])

  unfoldable pub read_only_kubeconfig_turns : String → Chain X String
  read_only_kubeconfig_turns admin_kc =
      and_then (turn (outer (out.clients_from_readonly_source admin_kc))) (λ clients.
        turn (outer (out.create_read_only_kubeconfig clients admin_kc (token_seconds out cfg))))

  -- The run of the command, and `os.Remove`.
  abbrev pub executed :
      String → List String → String → Map String → String → Action (State X) Outcome
  executed command args path os_env stdin s =
      let (r, x) = out.execer command args (exec_options out.system path os_env stdin) s.outside in
      (ok (outcome r), record s { outside = x })

  abbrev pub removed : String → Outcome → Action (State X) Outcome
  removed path o s = (ok o, record s { outside = out.system.remove path s.outside })

  unfoldable pub with_kubeconfig_turns :
      String → Map String → List String → String → Chain X Outcome
  with_kubeconfig_turns kc os_env [] stdin = done (err empty_command)
  with_kubeconfig_turns kc os_env (command ∷ args) stdin =
      and_then
        (turn
          (annotate "exec: writing temp kubeconfig" (outer (write_temp_kubeconfig out.system kc))))
        (λ path.
          and_then (turn (executed command args path os_env stdin)) (λ o. turn (removed path o)))

  unfoldable pub exec_in_turns :
      KubeconfigSource → ClusterId → List String → String → Bool → Chain X Outcome
  unfolding cached_kubeconfig_turns read_only_kubeconfig_turns with_kubeconfig_turns
  exec_in_turns src id command stdin readonly =
      and_then (cached_kubeconfig_turns src id.context id.namespace id.name) (λ kc.
        if readonly
        then (and_then (read_only_kubeconfig_turns kc)
            (λ ro_kc. with_kubeconfig_turns ro_kc [] command stdin))
        else (and_then (turn (outer (out.clients_for_context src id.context))) (λ clients.
            and_then (turn (outer (out.fetch_open_stack_env clients id.namespace id.name)))
              (λ os_env. with_kubeconfig_turns kc os_env command stdin))))

-- The result of a goroutine.
abbrev pub settle_turns :
    {X : Type 0} → ClusterId → Chain X Outcome → Goroutine (State X) ClusterExecResult
settle_turns id (done r) = done (settled id r)
settle_turns id (call change next) = call change (λ s. settle_turns id (next s))

module _ {X C : Type 0} (out : Outside X C) (cfg : AppConfig) where
  unfoldable pub exec_one_target_turns :
      List String → String → Bool → String → Goroutine (State X) ClusterExecResult
  unfolding exec_in_turns
  exec_one_target_turns command stdin readonly target = elim (parse_target target) [
    | err e ↦ done (cluster_err_result no_cluster e)
    | ok (kubeconfig_name, context, namespace, name) ↦
        (let id : ClusterId = record {
          kubeconfig = kubeconfig_name;
          context = context;
          namespace = namespace;
          name = name;
        } in
          elim (lookup kubeconfig_name cfg.kubeconfigs) [
            | none ↦ done (cluster_err_result id (unknown_kubeconfig kubeconfig_name))
            | some src ↦ settle_turns id (exec_in_turns out cfg src id command stdin readonly)
          ])
  ]

  -- `turns` says which goroutine takes each turn.
  unfoldable pub exec_targets_turns :
      List ℕ
      → List String
      → List String
      → String
      → Bool
      → State X
      → List ClusterExecResult × State X
  unfolding interleaved exec_one_target_turns
  exec_targets_turns turns targets command stdin readonly =
      interleaved zero_exec_result (exec_one_target_turns command stdin readonly) turns targets

  module _ (marshal_execs : List ClusterExecResult → Result String) (turns : List ℕ) where
    unfoldable pub exec_in_cluster_turns :
        List String → List String → String → Bool → State X → Result CallToolResult × State X
    unfolding exec_targets_turns
    exec_in_cluster_turns clusters [] stdin readonly s = (err no_command, s)
    exec_in_cluster_turns [] (c ∷ cs) stdin readonly s = (ok no_clusters_result, s)
    exec_in_cluster_turns (p ∷ ps) (c ∷ cs) stdin readonly s =
        let (resolved, s') =
          resolve_cluster_patterns (all_known_clusters out cfg) (p ∷ ps) true s in
        elim resolved [
          | err e ↦ (ok (text_result (error_text e) true), s')
          | ok targets ↦
              (let (results, s'') = exec_targets_turns turns targets (c ∷ cs) stdin readonly s' in
                (answered (any_failed exec_failed results) (marshal_execs results), s''))
        ]
