-- ===== src/Server/Listing.antt =====
-- internal/server/resolve.go and internal/server/target.go
pub mod Laws
use capo_shell_mcp.Prelude.{
  ℤ, String, Option, none, some, List, [], ◌∷◌, ◌++◌, map, Map, lookup, Result, ok, err,
  unknown_kubeconfig,
}
use capo_shell_mcp.Cache.{TtlCache, get, set}
use capo_shell_mcp.Capi.Target.{CapiCluster, format_target, parse_target}
use capo_shell_mcp.Capi.Store.{Store, cluster_list_key}
use capo_shell_mcp.Config.Load.{AppConfig, KubeconfigSource}
use capo_shell_mcp.Action.{Action, pure, raise, lift, ◌>>=◌, ◌>>◌}
use capo_shell_mcp.Server.Outside.{Outside, State, outer, ResolvedCluster, sorted_kubeconfigs}

module _ {X C : Type 0} (out : Outside X C) (cfg : AppConfig) where
  -- s.store.ClusterList.Get and Set at the time of the call
  abbrev pub get_list : String → Action (State X) (Option (List CapiCluster))
  get_list key s =
      let (found, c) = get (out.now s.outside) key s.store.cluster_list in
      (ok found, record s { store = record s.store { cluster_list = c } })

  abbrev pub set_list : String → List CapiCluster → Action (State X) (Unit {0})
  set_list key clusters s = (
    ok tt,
    record s {
      store = record s.store {
        cluster_list = set (out.now s.outside) key clusters s.store.cluster_list;
      };
    },
  )

  -- The rest of `listClustersCached` after a miss.
  unfoldable pub list_clusters_anew :
      KubeconfigSource → String → Action (State X) (List CapiCluster)
  list_clusters_anew src context = do
    clients ← outer (out.clients_for_context src context)
    clusters ← outer (out.list_clusters_for_context clients src.name context cfg.custom_fields)
    set_list (cluster_list_key src.name context) clusters
    pure clusters

  unfoldable pub list_clusters_cached :
      KubeconfigSource → String → Action (State X) (List CapiCluster)
  unfolding list_clusters_anew
  list_clusters_cached src context = do
    found ← get_list (cluster_list_key src.name context)
    (elim found [ some cached ↦ pure cached | none ↦ list_clusters_anew src context ])

  unfoldable pub resolve_contexts : KubeconfigSource → Action (State X) (List String)
  resolve_contexts src = elim src.contexts [
    | [] ↦ (do content ← outer (out.read_file src.path); lift (out.get_contexts content))
    | c ∷ cs ↦ pure (c ∷ cs)
  ]

  abbrev resolved : KubeconfigSource → CapiCluster → ResolvedCluster
  resolved src c = record { cluster = c; source = src }

  unfoldable pub resolve_in :
      KubeconfigSource → List String → Action (State X) (List ResolvedCluster)
  unfolding list_clusters_cached
  resolve_in src [] = pure []
  resolve_in src (context ∷ contexts) = do
    clusters ← list_clusters_cached src context
    rest ← resolve_in src contexts
    pure (map (resolved src) clusters ++ rest)

  unfoldable pub resolve_all : List KubeconfigSource → Action (State X) (List ResolvedCluster)
  unfolding resolve_in resolve_contexts
  resolve_all [] = pure []
  resolve_all (src ∷ sources) = do
    contexts ← resolve_contexts src
    here ← resolve_in src contexts
    rest ← resolve_all sources
    pure (here ++ rest)

  unfoldable pub all_resolved_clusters : Action (State X) (List ResolvedCluster)
  unfolding resolve_all
  all_resolved_clusters = resolve_all (sorted_kubeconfigs cfg)

  unfoldable pub list_targets : Action (State X) (List String)
  unfolding all_resolved_clusters
  list_targets = do
    resolved ← all_resolved_clusters
    pure (map (λ r. format_target r.cluster) resolved)

  unfoldable pub all_known_clusters : Action (State X) (List CapiCluster)
  unfolding all_resolved_clusters
  all_known_clusters = do resolved ← all_resolved_clusters; pure (map (λ r. r.cluster) resolved)
