-- ===== src/Server/Turns/FanOut.antt =====
-- `ExecInCluster` and `ExecInClusterReadonly` with goroutines that take turns.
use capo_shell_mcp.Prelude.{
  ℕ, ◌≡◌, refl, ap, ◌∙◌, String, Bool, List, ◌∷◌, map, All, lookup, Option-cases, Result, ok, err,
  Result-cases, inl, inr,
}
use capo_shell_mcp.Capi.Target.{parse_target}
use capo_shell_mcp.Capi.Target.Laws.{slashes}
use capo_shell_mcp.Capi.Resolve.{resolve_cluster_patterns}
use capo_shell_mcp.Capi.Resolve.Dedupe.{first_occurrences}
use capo_shell_mcp.Capi.Resolve.Strict.{resolve_strict_iff}
use capo_shell_mcp.Config.Load.{AppConfig}
use capo_shell_mcp.Exec.{Outcome}
use capo_shell_mcp.FanOut.{any_failed}
use capo_shell_mcp.FanOut.Interleaved.{done, call, run_whole, interleaved, AllDone}
use capo_shell_mcp.FanOut.Interleaved.Laws.{Ends, interleaved-map}
use capo_shell_mcp.Server.Outside.{Outside, State}
use capo_shell_mcp.Server.Listing.{all_known_clusters}
use capo_shell_mcp.Server.Tools.{
  ClusterId, ClusterExecResult, settled, exec_one_target, zero_exec_result, exec_failed, answered,
}
use capo_shell_mcp.Server.Tools.FanOut.{target_id}
use capo_shell_mcp.Server.Turns.{
  Chain, settle_turns, exec_in_turns, exec_one_target_turns, exec_targets_turns,
  exec_in_cluster_turns,
}
use capo_shell_mcp.Server.Turns.Laws.{exec_in-Splits}

run_whole-settle_turns :
    {X : Type 0} (id : ClusterId) (g : Chain X Outcome) (s : State X)
    → run_whole (settle_turns id g) s ≡ (settled id (run_whole g s).0, (run_whole g s).1)
unfolding run_whole
run_whole-settle_turns id (done r) s = refl
run_whole-settle_turns id (call change next) s = run_whole-settle_turns id (next s) (change s)

settled-cluster : (id : ClusterId) (r : Result Outcome) → (settled id r).cluster ≡ id
settled-cluster id (ok r) = refl
settled-cluster id (err e) = refl

settle_turns-Ends :
    {X : Type 0} (id : ClusterId) (g : Chain X Outcome)
    → Ends (λ r. r.cluster ≡ id) (settle_turns id g)
settle_turns-Ends id (done r) = settled-cluster id r
settle_turns-Ends id (call change next) = λ s. settle_turns-Ends id (next s)

module _ {X C : Type 0} (out : Outside X C) (cfg : AppConfig) (command : List String)
    (stdin : String) (readonly : Bool) where
  -- A goroutine that takes all of its turns at once gives what execOneTarget does when nothing
  -- happens meanwhile, and leaves the same state, for every target.
  pub exec_one_target-whole :
      (target : String) (s : State X)
      → run_whole (exec_one_target_turns out cfg command stdin readonly target) s
        ≡ exec_one_target out cfg command stdin readonly target s
  unfolding exec_one_target_turns exec_one_target run_whole
  exec_one_target-whole target s = elim (Result-cases (parse_target target)) [
    | inr (e, i) ↦ rw (i, exec_one_target, exec_one_target_turns) refl
    | inl ((k, c, ns, n), i) ↦ elim (Option-cases (lookup k cfg.kubeconfigs)) [
      | inl none_there ↦ rw (i, exec_one_target, exec_one_target_turns, none_there) refl
      | inr (src, there) ↦
          rw (i, exec_one_target, exec_one_target_turns, there)
            (let id : ClusterId = record {
              kubeconfig = k;
              context = c;
              namespace = ns;
              name = n;
            } in
              run_whole-settle_turns id (exec_in_turns out cfg src id command stdin readonly) s
              ∙ ap (λ r. (settled id r.0, r.1))
                  (exec_in-Splits out cfg src id command stdin readonly s))
    ]
  ]

  exec_one_target_turns-Ends :
      (t : String)
      → Ends (λ r. r.cluster ≡ target_id t) (exec_one_target_turns out cfg command stdin readonly t)
  unfolding exec_one_target_turns
  exec_one_target_turns-Ends t = elim (Result-cases (parse_target t)) [
    | inr (e, i) ↦ rw (i, exec_one_target_turns, target_id) refl
    | inl ((k, c, ns, n), i) ↦ elim (Option-cases (lookup k cfg.kubeconfigs)) [
      | inl none_there ↦ rw (i, exec_one_target_turns, target_id, none_there) refl
      | inr (src, there) ↦
          rw (i, exec_one_target_turns, target_id, there)
            (let id : ClusterId = record {
              kubeconfig = k;
              context = c;
              namespace = ns;
              name = n;
            } in
              settle_turns-Ends id (exec_in_turns out cfg src id command stdin readonly))
    ]
  ]

module _ {X C : Type 0} (out : Outside X C) (cfg : AppConfig)
    (marshal_execs : List ClusterExecResult → Result String) (turns : List ℕ) where
  -- The turns are enough for the goroutine of each target.
  abbrev pub IsComplete : List String → List String → String → Bool → State X → Type 0
  IsComplete targets command stdin readonly s =
      AllDone zero_exec_result (exec_one_target_turns out cfg command stdin readonly) turns targets
        s

  -- For a command that is not empty and entries that all have three slashes, at least one: however the
  -- goroutines interleave between their calls, once all are done, the answer is made of results that
  -- name the clusters of the first occurrences of the entries, in their order, and is marked as an
  -- error if one of them has an error or an exit code that is not 0.
  pub exec_in_cluster_turns_results :
      (p : String) (ps : List String) (c : String) (cs : List String) (stdin : String)
      (readonly : Bool) (s : State X)
      → All (λ u. slashes u ≡ 3) (p ∷ ps)
      → IsComplete (first_occurrences (p ∷ ps)) (c ∷ cs) stdin readonly s
      → (results : List ClusterExecResult) × (map (λ r. r.cluster) results
          ≡ map target_id (first_occurrences (p ∷ ps)))
        × ((exec_in_cluster_turns out cfg marshal_execs turns (p ∷ ps) (c ∷ cs) stdin readonly s).0
            ≡ answered (any_failed exec_failed results) (marshal_execs results))
  unfolding exec_in_cluster_turns exec_targets_turns resolve_cluster_patterns interleaved
  exec_in_cluster_turns_results p ps c cs stdin readonly s three all =
      let targets : List String = first_occurrences (p ∷ ps) in
      let resolved =
        (resolve_strict_iff (all_known_clusters out cfg) (p ∷ ps) s targets).1 (three, refl) in
      (
        (exec_targets_turns out cfg turns targets (c ∷ cs) stdin readonly s).0,
        interleaved-map zero_exec_result (exec_one_target_turns out cfg (c ∷ cs) stdin readonly)
            (λ r. r.cluster) target_id (exec_one_target_turns-Ends out cfg (c ∷ cs) stdin readonly)
            turns targets s all,
        rw (resolved, exec_in_cluster_turns) refl,
      )
