-- ===== src/Server/Turns/Tests.antt =====
-- Tests of two goroutines that run a command in turns.
use capo_shell_mcp.Prelude.{
  ℕ, ◌≡◌, refl, String, false, List, [], ◌∷◌, map, ok, split, lookup, insert, ◌+ℤ◌,
}
use capo_shell_mcp.Cache.{get, set}
use capo_shell_mcp.Capi.Store.{kubeconfig_key}
use capo_shell_mcp.Capi.Target.{parse_target}
use capo_shell_mcp.Capi.Resolve.Dedupe.{first_occurrences}
use capo_shell_mcp.Exec.{write_temp_kubeconfig}
use capo_shell_mcp.FanOut.{any_failed}
use capo_shell_mcp.FanOut.Interleaved.{run_whole, run_turns, start_goroutines, advance}
use capo_shell_mcp.Server.Fake.{logged, cfg, start}
use capo_shell_mcp.Server.Tools.{ClusterExecResult, exec_failed, answered, exec_one_target}
use capo_shell_mcp.Server.Tools.FanOut.{target_id}
use capo_shell_mcp.Server.Turns.{
  exec_one_target_turns, exec_in_turns, exec_in_cluster_turns, cached_kubeconfig_turns,
  fetch_and_store_turns, fetch_turns, find_proxy_turns, reuse_turns, with_kubeconfig_turns,
}
use capo_shell_mcp.Server.Turns.FanOut.{
  exec_one_target-whole, IsComplete, exec_in_cluster_turns_results,
}

exec_one_target-whole_test :
    run_whole (exec_one_target_turns logged cfg ("kubectl" ∷ []) "" false "prod/admin/ns/c1") start
    ≡ exec_one_target logged cfg ("kubectl" ∷ []) "" false "prod/admin/ns/c1" start
exec_one_target-whole_test =
    exec_one_target-whole logged cfg ("kubectl" ∷ []) "" false "prod/admin/ns/c1" start

abbrev two : List String
two = "prod/admin/ns/c1" ∷ "prod/admin/ns/c2" ∷ []

abbrev alternate : ℕ → List ℕ
alternate ℕ.zero = []
alternate (ℕ.suc n) = 0 ∷ 1 ∷ alternate n

complete : IsComplete logged cfg (λ rs. ok "[]") (alternate 9) two ("kubectl" ∷ []) "" false start
unfolding run_turns start_goroutines advance exec_one_target_turns exec_in_turns
    cached_kubeconfig_turns fetch_and_store_turns fetch_turns find_proxy_turns reuse_turns
    with_kubeconfig_turns parse_target split lookup get set insert kubeconfig_key
    write_temp_kubeconfig ◌+ℤ◌
complete = (tt, (tt, tt))

exec_in_cluster_turns_results_example :
    (results : List ClusterExecResult) × (map (λ r. r.cluster) results
      ≡ map target_id (first_occurrences two))
    × ((exec_in_cluster_turns logged cfg
          (λ rs. ok "[]")
          (alternate 9)
          two
          ("kubectl" ∷ [])
          ""
          false
          start).0
        ≡ answered (any_failed exec_failed results) (ok "[]"))
exec_in_cluster_turns_results_example =
    exec_in_cluster_turns_results logged cfg (λ rs. ok "[]") (alternate 9) "prod/admin/ns/c1"
      ("prod/admin/ns/c2" ∷ []) "kubectl" [] "" false start (refl, (refl, tt)) complete
