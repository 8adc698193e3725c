-- ===== src/Server/Tools/FanOut.antt =====
-- The results of `execInClusterFanOut`, for any order in which its goroutines run.
use capo_shell_mcp.Prelude.{
  ℕ, ◌≡◌, refl, String, Bool, List, map, Result, ok, err, Result-cases, lookup, Option-cases, inl,
  inr,
}
use capo_shell_mcp.Capi.Target.{parse_target}
use capo_shell_mcp.Config.Load.{AppConfig}
use capo_shell_mcp.Exec.{Outcome}
use capo_shell_mcp.FanOut.Laws.{IsSchedule, fan_out-map}
use capo_shell_mcp.Server.Outside.{Outside, State}
use capo_shell_mcp.Server.Tools.{
  ClusterId, no_cluster, exec_one_target, exec_targets, exec_in, settled, zero_exec_result,
}

-- The cluster that a target names.
abbrev pub target_id : String → ClusterId
target_id t = elim (parse_target t) [
  | err e ↦ no_cluster
  | ok (kubeconfig, context, namespace, name) ↦ record {
    kubeconfig = kubeconfig;
    context = context;
    namespace = namespace;
    name = name;
  }
]

settled-cluster : (id : ClusterId) (r : Result Outcome) → (settled id r).cluster ≡ id
settled-cluster id (ok r) = refl
settled-cluster id (err e) = refl

module _ {X C : Type 0} (out : Outside X C) (cfg : AppConfig) (command : List String)
    (stdin : String) (readonly : Bool) where
  pub exec_one_target-cluster :
      (t : String) (s : State X)
      → (exec_one_target out cfg command stdin readonly t s).0.cluster ≡ target_id t
  unfolding exec_one_target
  exec_one_target-cluster t s = elim (Result-cases (parse_target t)) [
    | inr (e, i) ↦ rw (i, exec_one_target, target_id) refl
    | inl ((k, c, ns, n), i) ↦ elim (Option-cases (lookup k cfg.kubeconfigs)) [
      | inl none_there ↦ rw (i, exec_one_target, target_id, none_there) refl
      | inr (src, there) ↦
          rw (i, exec_one_target, target_id, there)
            (let id : ClusterId = record {
              kubeconfig = k;
              context = c;
              namespace = ns;
              name = n;
            } in
              settled-cluster id (exec_in out cfg src id command stdin readonly s).0)
    ]
  ]

  -- The results of `execInClusterFanOut` name the clusters of the targets, in their order.
  pub exec_targets-clusters :
      (order : List (ℕ × String)) (targets : List String) (s : State X)
      → IsSchedule order targets
      → map (λ r. r.cluster) (exec_targets out cfg order targets command stdin readonly s).0
        ≡ map target_id targets
  unfolding exec_targets
  exec_targets-clusters order targets s h =
      fan_out-map (exec_one_target out cfg command stdin readonly) (λ r. r.cluster) target_id
        exec_one_target-cluster zero_exec_result order targets s h
