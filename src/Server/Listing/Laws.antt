-- ===== src/Server/Listing/Laws.antt =====
-- The cache of cluster lists between two calls.
use capo_shell_mcp.Prelude.{
  ◌+ℤ◌, ◌≤ℤ◌, String, ◌≡◌, refl, sym, ap, subst, ◌∙◌, Option, none, some, List, ok,
}
use capo_shell_mcp.Cache.{TtlCache, get, set}
use capo_shell_mcp.Capi.Target.{CapiCluster}
use capo_shell_mcp.Capi.Store.{cluster_list_key}
use capo_shell_mcp.Config.Load.{AppConfig, KubeconfigSource}
use capo_shell_mcp.Action.{Action, follow-ok}
use capo_shell_mcp.Server.Outside.{Outside, State, outer}
use capo_shell_mcp.Server.Listing.{list_clusters_cached, list_clusters_anew}
use capo_shell_mcp.Server.Kubeconfig.Laws.{get-set}

module _ {X C : Type 0} (out : Outside X C) (cfg : AppConfig) (src : KubeconfigSource)
    (context : String) where
  -- The read that the call begins with.
  abbrev pub read_list : State X → Option (List CapiCluster) × TtlCache (List CapiCluster)
  read_list s = get (out.now s.outside) (cluster_list_key src.name context) s.store.cluster_list

  abbrev after_read_list : State X → State X
  after_read_list s = record s { store = record s.store { cluster_list = (read_list s).1 } }

  abbrev stored_list : List CapiCluster → State X → State X
  stored_list clusters s = record s {
    store = record s.store {
      cluster_list =
          set (out.now s.outside) (cluster_list_key src.name context) clusters s.store.cluster_list;
    };
  }

  list-miss :
      (s : State X)
      → (read_list s).0 ≡ none
      → list_clusters_cached out cfg src context s
        ≡ list_clusters_anew out cfg src context (after_read_list s)
  unfolding list_clusters_cached
  list-miss s h = rw (h, list_clusters_cached) refl

  list-hit :
      (s : State X) (l : List CapiCluster)
      → (read_list s).0 ≡ some l
      → list_clusters_cached out cfg src context s ≡ (ok l, after_read_list s)
  unfolding list_clusters_cached
  list-hit s l h = rw (h, list_clusters_cached) refl

  -- A call that succeeds anew leaves what it gives in the cache.
  list_clusters_anew-stored :
      (s : State X) {l : List CapiCluster} {s' : State X}
      → list_clusters_anew out cfg src context s ≡ (ok l, s')
      → (u : State X) × (s' ≡ stored_list l u)
  unfolding list_clusters_anew
  list_clusters_anew-stored s h =
      let (clients, _, h') = follow-ok _ (outer (out.clients_for_context src context) s) h in
      let s' : State X = (outer (out.clients_for_context src context) s).1 in
      let listed : Action (State X) (List CapiCluster) =
        outer (out.list_clusters_for_context clients src.name context cfg.custom_fields) in
      let (clusters, _, h'') = follow-ok _ (listed s') h' in
      let same : clusters ≡ _ = cc (ap (λ r. r.0) h'') in
      ((listed s').1, sym (ap (λ r. r.1) h'') ∙ ap (λ c. stored_list c (listed s').1) same)

  hit-stored_list :
      (l : List CapiCluster) (s : State X) (x : X)
      → out.now x ≤ℤ out.now s.outside +ℤ s.store.cluster_list.ttl
      → list_clusters_cached out cfg src context (record (stored_list l s) { outside = x })
        ≡ (ok l, record (stored_list l s) { outside = x })
  hit-stored_list l s x t =
      let found =
        get-set (out.now s.outside) (out.now x) (cluster_list_key src.name context) l
          s.store.cluster_list t in
      list-hit (record (stored_list l s) { outside = x }) l (ap (λ r. r.0) found)
      ∙ ap
          (λ r. (
            ok l,
            record (stored_list l s) { outside = x; store = record s.store { cluster_list = r.1 } },
          ))
          found

  -- A call that finds nothing and succeeds has stored its list with the time of its end; until the
  -- lifetime has passed a call gives the same list, whatever happened outside since, and neither
  -- calls anything outside nor changes the caches.
  pub list_clusters_cached-again :
      (s : State X) {l : List CapiCluster} {s' : State X}
      → (read_list s).0 ≡ none
      → list_clusters_cached out cfg src context s ≡ (ok l, s')
      → (x : X) → out.now x ≤ℤ out.now s'.outside +ℤ s'.store.cluster_list.ttl
      → list_clusters_cached out cfg src context (record s' { outside = x })
        ≡ (ok l, record s' { outside = x })
  unfolding set
  list_clusters_cached-again s {l} {s'} h g x t =
      let (u, same) = list_clusters_anew-stored (after_read_list s) (sym (list-miss s h) ∙ g) in
      subst
        (λ w.
          out.now x ≤ℤ out.now w.outside +ℤ w.store.cluster_list.ttl
          → list_clusters_cached out cfg src context (record w { outside = x })
            ≡ (ok l, record w { outside = x }))
        (sym same) (hit-stored_list l u x) t
