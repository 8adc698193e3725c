-- ===== src/Server/ReadOnly/Tools.antt =====
-- The read-only tools as a whole.
use capo_shell_mcp.Prelude.{
  ℕ, ◌≡◌, refl, ◌⊎◌, inl, inr, String, Bool, true, false, List, [], ◌∷◌, All, Result, Error, ok,
  Result-cases,
}
use capo_shell_mcp.Capi.Resolve.{resolve_cluster_patterns}
use capo_shell_mcp.Capi.Resolve.State.{resolve_cluster_patterns-keeps}
use capo_shell_mcp.Config.Load.{AppConfig}
use capo_shell_mcp.FanOut.Laws.{IsSchedule, fan_out-keeps, fan_out-has}
use capo_shell_mcp.Server.Outside.{Outside, State}
use capo_shell_mcp.Server.Listing.{all_known_clusters}
use capo_shell_mcp.Server.Tools.{
  ListClustersEntry, KubeconfigResult, ClusterExecResult, CallToolResult, text_result, error_text,
  zero_exec_result, zero_kubeconfig_result, answered, exec_one_target, exec_targets, get_one_target,
  get_targets, get_cluster_kubeconfig_fan_out, exec_in_cluster_fan_out, kubeconfig_failed,
}
use capo_shell_mcp.FanOut.{any_failed}
use capo_shell_mcp.Server.ReadOnly.Calls.{ReadOnlyCalls}
use capo_shell_mcp.Server.ReadOnly.Listing.{all_known_clusters-Keeps}
use capo_shell_mcp.Server.ReadOnly.Targets.{IsReadOnly, exec_one_target-keeps, get_one_target-keeps}

module _ {X C : Type 0} (out : Outside X C) where
  -- The answer is an error, or made of read-only results.
  abbrev pub ShowsReadOnly :
      (List KubeconfigResult → Result String) → Result CallToolResult → Type 0
  ShowsReadOnly marshal_kubeconfigs answer =
      ((e : Error) × (answer ≡ ok (text_result (error_text e) true)))
      ⊎ ((results : List KubeconfigResult) × (answer
            ≡ answered (any_failed kubeconfig_failed results) (marshal_kubeconfigs results))
          × All (IsReadOnly out) results)

module _ {X C : Type 0} (out : Outside X C) (cfg : AppConfig) (P : X → Type 0)
    (calls : ReadOnlyCalls out P) where
  module _ (marshal_entries : List ListClustersEntry → Result String)
      (marshal_kubeconfigs : List KubeconfigResult → Result String)
      (marshal_execs : List ClusterExecResult → Result String)
      (schedule : List String → List (ℕ × String)) where
    abbrev pub exec_readonly :
        List String → List String → String → State X → Result CallToolResult × State X
    exec_readonly clusters command stdin =
        exec_in_cluster_fan_out out cfg marshal_entries marshal_kubeconfigs marshal_execs schedule
          clusters command stdin true

    resolved-keeps :
        (patterns : List String) (strict : Bool) (s : State X)
        → P s.outside
        → P (resolve_cluster_patterns (all_known_clusters out cfg) patterns strict s).1.outside
    resolved-keeps patterns strict s p =
        resolve_cluster_patterns-keeps (all_known_clusters out cfg) (λ u. P u.outside)
          (λ u q. (all_known_clusters-Keeps out cfg P calls u q).0) patterns strict s p

    -- For any entries and any command, and whatever the order of the goroutines: exec_in_cluster_readonly
    -- keeps every property of the world that the calls of the read-only path keep, where a file is
    -- only written with a kubeconfig that CreateReadOnlyKubeconfig gave for clients of the kubeconfig it
    -- was given, a command only sees the environment of the daemon with KUBECONFIG added, and
    -- nothing is said of FetchOpenStackEnv.
    pub exec_readonly-keeps :
        (clusters command : List String) (stdin : String) (s : State X)
        → P s.outside
        → P (exec_readonly clusters command stdin s).1.outside
    unfolding exec_in_cluster_fan_out exec_targets
    exec_readonly-keeps clusters [] stdin s p = p
    exec_readonly-keeps [] (c ∷ cs) stdin s p = p
    exec_readonly-keeps (q ∷ qs) (c ∷ cs) stdin s p =
        let s' = (resolve_cluster_patterns (all_known_clusters out cfg) (q ∷ qs) true s).1 in
        elim (Result-cases
          (resolve_cluster_patterns (all_known_clusters out cfg) (q ∷ qs) true s).0) [
            | inr (e, i) ↦ rw (i, exec_in_cluster_fan_out) (resolved-keeps (q ∷ qs) true s p)
            | inl (targets, i) ↦
                rw (i, exec_in_cluster_fan_out)
                  (fan_out-keeps (exec_one_target out cfg (c ∷ cs) stdin true) (λ u. P u.outside)
                    (λ t u. exec_one_target-keeps out cfg P calls (c ∷ cs) stdin t u)
                    zero_exec_result (schedule targets) targets s'
                    (resolved-keeps (q ∷ qs) true s p))
          ]

    abbrev pub get_readonly : List String → State X → Result CallToolResult × State X
    get_readonly clusters =
        get_cluster_kubeconfig_fan_out out cfg marshal_entries marshal_kubeconfigs marshal_execs
          schedule clusters true

    -- For any patterns, and whatever the order of the goroutines: get_cluster_kubeconfig_readonly keeps
    -- every property of the world that the calls of the read-only path keep.
    pub get_readonly-keeps :
        (patterns : List String) (s : State X) → P s.outside → P (get_readonly patterns s).1.outside
    unfolding get_cluster_kubeconfig_fan_out get_targets
    get_readonly-keeps patterns s p =
        let s' = (resolve_cluster_patterns (all_known_clusters out cfg) patterns false s).1 in
        let p' = resolved-keeps patterns false s p in
        elim (Result-cases
          (resolve_cluster_patterns (all_known_clusters out cfg) patterns false s).0) [
            | inr (e, i) ↦ rw (i, get_cluster_kubeconfig_fan_out) p'
            | inl (targets, i) ↦
                rw (i, get_cluster_kubeconfig_fan_out)
                  (fan_out-keeps (get_one_target out cfg true) (λ u. P u.outside)
                    (λ t u q. (get_one_target-keeps out cfg P calls t u q).1) zero_kubeconfig_result
                    (schedule targets) targets s' p')
          ]

    get_readonly-shows :
        (patterns : List String) (s : State X)
        → ((ts : List String) → IsSchedule (schedule ts) ts)
        → P s.outside
        → ShowsReadOnly out marshal_kubeconfigs (get_readonly patterns s).0
    unfolding get_cluster_kubeconfig_fan_out get_targets
    get_readonly-shows patterns s sched p =
        let s' = (resolve_cluster_patterns (all_known_clusters out cfg) patterns false s).1 in
        elim (Result-cases
          (resolve_cluster_patterns (all_known_clusters out cfg) patterns false s).0) [
            | inr (e, i) ↦ rw (i, get_cluster_kubeconfig_fan_out) (inl (e, refl))
            | inl (targets, i) ↦
                rw (i, get_cluster_kubeconfig_fan_out)
                  (inr (
                    (get_targets out cfg (schedule targets) targets true s').0,
                    refl,
                    fan_out-has (get_one_target out cfg true) (λ u. P u.outside) (IsReadOnly out)
                        (get_one_target-keeps out cfg P calls) zero_kubeconfig_result
                        (schedule targets) targets s' (sched targets)
                        (resolved-keeps patterns false s p),
                  ))
          ]

module _ {X C : Type 0} (out : Outside X C) (cfg : AppConfig)
    (marshal_entries : List ListClustersEntry → Result String)
    (marshal_kubeconfigs : List KubeconfigResult → Result String)
    (marshal_execs : List ClusterExecResult → Result String)
    (schedule : List String → List (ℕ × String)) where
  trivial_calls : ReadOnlyCalls out (λ x. Unit {0})
  trivial_calls = record {
    read_file = λ path x p. tt;
    clients = λ src context x p. tt;
    readonly_clients = λ kc x p. tt;
    list = λ c name context fields x p. tt;
    workload = λ c namespace name x p. tt;
    info = λ c namespace name x p. tt;
    issue = λ c kc n x p. tt;
    proxy = λ ip port host ttl x p. tt;
    random = λ x p. tt;
    write = λ path kc x i p. tt;
    remove = λ path x p. tt;
    execute = λ command args path stdin x p. tt;
  }

  -- Whatever the patterns and the order of the goroutines: get_cluster_kubeconfig_readonly answers
  -- with an error, or with results of which each has an error and no kubeconfig, or a kubeconfig
  -- that CreateReadOnlyKubeconfig gave for clients of the kubeconfig it was given.
  pub get_readonly-issued :
      (patterns : List String) (s : State X)
      → ((ts : List String) → IsSchedule (schedule ts) ts)
      → ShowsReadOnly out marshal_kubeconfigs
          (get_cluster_kubeconfig_fan_out out cfg marshal_entries marshal_kubeconfigs marshal_execs
            schedule patterns true s).0
  get_readonly-issued patterns s sched =
      get_readonly-shows out cfg (λ x. Unit) trivial_calls marshal_entries marshal_kubeconfigs
        marshal_execs schedule patterns s sched tt
