-- ===== src/Server/Outside.antt =====
-- internal/server/server.go: what a `ToolServer` holds. `X` is the state of the world outside of the
-- two caches, and `C` a bundle of Kubernetes clients.
use capo_shell_mcp.Prelude.{
  ℤ, String, Option, none, some, List, [], map, Map, lookup, keys, sort_names, Result,
}
use capo_shell_mcp.Capi.Target.{CapiCluster}
use capo_shell_mcp.Capi.Store.{Store}
use capo_shell_mcp.Config.Load.{AppConfig, KubeconfigSource, KubeconfigTransforms}
use capo_shell_mcp.Exec.{System}
use capo_shell_mcp.Shell.{Execer}
use capo_shell_mcp.Action.{Action}

-- The calls that the server makes of other packages. Each may fail and change the world.
pub record Outside (X C : Type 0) : Type 0 where
  -- time.Now, in nanoseconds
  pub now : X → ℤ
  pub read_file : String → Action X String
  pub system : System X
  pub execer : Execer X
  pub clients_for_context : KubeconfigSource → String → Action X C
  pub clients_from_readonly_source : String → Action X C
  pub get_contexts : String → Result (List String)
  pub list_clusters_for_context : C → String → String → Map String → Action X (List CapiCluster)
  pub fetch_workload_kubeconfig : C → String → String → Action X String
  pub apply_kubeconfig_transform : String → KubeconfigTransforms → Result String
  -- Host and port, if the result has `ok`.
  pub fetch_api_server_info : C → String → String → Action X (Option (String × String))
  pub fetch_open_stack_env : C → String → String → Action X (Map String)
  pub create_read_only_kubeconfig : C → String → ℤ → Action X String
  pub ensure_proxy : String → String → String → ℤ → Action X (Unit {0})

pub record State (X : Type 0) : Type 0 where
  pub store : Store
  pub outside : X

-- A call that leaves the caches alone.
abbrev pub outer {ℓ} : {X : Type 0} {A : Type ℓ} → Action X A → Action (State X) A
outer m s = let (r, x) = m s.outside in (r, record s { outside = x })

pub record ResolvedCluster : Type 0 where
  pub cluster : CapiCluster
  pub source : KubeconfigSource

-- A key that is not there gives the zero value.
abbrev source_at : Map KubeconfigSource → String → KubeconfigSource
source_at m name = elim (lookup name m) [
  | some src ↦ src
  | none ↦ record { name = ""; path = ""; contexts = []; sshuttle_host = "" }
]

unfoldable pub sorted_kubeconfigs : AppConfig → List KubeconfigSource
unfolding sort_names
sorted_kubeconfigs cfg = map (source_at cfg.kubeconfigs) (sort_names (keys cfg.kubeconfigs))
