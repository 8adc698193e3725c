-- ===== src/Server/ReadOnly/Listing.antt =====
-- Listing keeps what the calls of the read-only tools keep.
use capo_shell_mcp.Prelude.{String, none, some, List, [], ◌∷◌, ok}
use capo_shell_mcp.Action.{pure, lift, ◌>>=◌}
use capo_shell_mcp.Capi.Target.{CapiCluster}
use capo_shell_mcp.Capi.Store.{cluster_list_key}
use capo_shell_mcp.Config.Load.{AppConfig, KubeconfigSource}
use capo_shell_mcp.Server.Outside.{Outside, outer, sorted_kubeconfigs}
use capo_shell_mcp.Server.Listing.{
  get_list, set_list, list_clusters_anew, list_clusters_cached, resolve_contexts, resolve_in,
  resolve_all, all_resolved_clusters, all_known_clusters,
}
use capo_shell_mcp.Server.ReadOnly.{Keeps, then-Keeps, lift-Keeps, outer-Keeps}
use capo_shell_mcp.Server.ReadOnly.Calls.{ReadOnlyCalls}

module _ {X C : Type 0} (out : Outside X C) (cfg : AppConfig) (P : X → Type 0)
    (calls : ReadOnlyCalls out P) where
  get_list-Keeps : (key : String) → Keeps P (get_list out cfg key)
  get_list-Keeps key s p = (p, λ a h. tt)

  set_list-Keeps : (key : String) (cs : List CapiCluster) → Keeps P (set_list out cfg key cs)
  set_list-Keeps key cs s p = (p, λ a h. tt)

  list_clusters_anew-Keeps :
      (src : KubeconfigSource) (context : String) → Keeps P (list_clusters_anew out cfg src context)
  unfolding list_clusters_anew
  list_clusters_anew-Keeps src context =
      then-Keeps P (outer (out.clients_for_context src context)) _
        (outer-Keeps P (out.clients_for_context src context) (calls.clients src context))
        (λ c.
          then-Keeps P (outer (out.list_clusters_for_context c src.name context cfg.custom_fields))
            _
            (outer-Keeps P (out.list_clusters_for_context c src.name context cfg.custom_fields)
              (calls.list c src.name context cfg.custom_fields))
            (λ cs.
              then-Keeps P (set_list out cfg (cluster_list_key src.name context) cs) (λ _. pure cs)
                (set_list-Keeps (cluster_list_key src.name context) cs)
                (λ _. lift-Keeps P (ok cs))))

  list_clusters_cached-Keeps :
      (src : KubeconfigSource) (context : String)
      → Keeps P (list_clusters_cached out cfg src context)
  unfolding list_clusters_cached
  list_clusters_cached-Keeps src context =
      then-Keeps P (get_list out cfg (cluster_list_key src.name context))
        (λ found. elim found [
          | some cached ↦ pure cached
          | none ↦ list_clusters_anew out cfg src context
        ])
        (get_list-Keeps (cluster_list_key src.name context))
        (λ found.
          elim found
            as (λ o. Keeps P (elim o [
              | some cached ↦ pure cached
              | none ↦ list_clusters_anew out cfg src context
            ])) [
              | some cached ↦ lift-Keeps P (ok cached)
              | none ↦ list_clusters_anew-Keeps src context
            ])

  resolve_contexts-Keeps : (src : KubeconfigSource) → Keeps P (resolve_contexts out cfg src)
  unfolding resolve_contexts
  resolve_contexts-Keeps src =
      elim src.contexts
        as (λ cs. Keeps P (elim cs [
          | [] ↦ (do content ← outer (out.read_file src.path); lift (out.get_contexts content))
          | c ∷ cs ↦ pure (c ∷ cs)
        ])) [
          | [] ↦
              then-Keeps P (outer (out.read_file src.path))
                (λ content. lift (out.get_contexts content))
                (outer-Keeps P (out.read_file src.path) (calls.read_file src.path))
                (λ content. lift-Keeps P (out.get_contexts content))
          | c ∷ cs ↦ lift-Keeps P (ok (c ∷ cs))
        ]

  resolve_in-Keeps :
      (src : KubeconfigSource) (contexts : List String) → Keeps P (resolve_in out cfg src contexts)
  unfolding resolve_in
  resolve_in-Keeps src [] = lift-Keeps P (ok [])
  resolve_in-Keeps src (context ∷ contexts) =
      then-Keeps P (list_clusters_cached out cfg src context) _
        (list_clusters_cached-Keeps src context)
        (λ here.
          then-Keeps P (resolve_in out cfg src contexts) _ (resolve_in-Keeps src contexts)
            (λ rest. lift-Keeps P _))

  resolve_all-Keeps : (sources : List KubeconfigSource) → Keeps P (resolve_all out cfg sources)
  unfolding resolve_all
  resolve_all-Keeps [] = lift-Keeps P (ok [])
  resolve_all-Keeps (src ∷ sources) =
      then-Keeps P (resolve_contexts out cfg src) _ (resolve_contexts-Keeps src) (λ contexts.
        then-Keeps P (resolve_in out cfg src contexts) _ (resolve_in-Keeps src contexts) (λ here.
          then-Keeps P (resolve_all out cfg sources) _ (resolve_all-Keeps sources)
            (λ rest. lift-Keeps P _)))

  pub all_known_clusters-Keeps : Keeps P (all_known_clusters out cfg)
  unfolding all_known_clusters all_resolved_clusters
  all_known_clusters-Keeps =
      then-Keeps P (resolve_all out cfg (sorted_kubeconfigs cfg)) _
        (resolve_all-Keeps (sorted_kubeconfigs cfg)) (λ all. lift-Keeps P _)
