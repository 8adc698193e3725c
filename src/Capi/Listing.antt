-- ===== src/Capi/Listing.antt =====
-- internal/capi/clusters.go
pub mod Laws
mod Tests
use capo_shell_mcp.Prelude.{String, List, [], ◌∷◌, map, Map, Result, ok, err, wrap}
use capo_shell_mcp.Action.{Action, pure, lift, annotate, ◌>>=◌}
use capo_shell_mcp.Capi.Target.{CapiCluster}
use capo_shell_mcp.Capi.Clients.{Item, Clients, Jq}
use capo_shell_mcp.Capi.CustomFields.{eval_custom_fields}

abbrev pub cluster_of_item : String → String → Item → CapiCluster
cluster_of_item kubeconfig_name context item = record {
  kubeconfig_name = kubeconfig_name;
  context = context;
  namespace = item.namespace;
  name = item.name;
  custom_fields = [];
}

abbrev pub with_fields : CapiCluster → Map String → CapiCluster
with_fields c [] = c
with_fields c (p ∷ m) = record c { custom_fields = p ∷ m }

-- The loop over the clusters: `if i < len(fieldValues) && len(fieldValues[i]) > 0`.
unfoldable pub assign_fields : List CapiCluster → List (Map String) → List CapiCluster
assign_fields [] values = []
assign_fields (c ∷ cs) [] = c ∷ cs
assign_fields (c ∷ cs) (m ∷ values) = with_fields c m ∷ assign_fields cs values

module _ {Query Code : Type 0} (jq : Jq Query Code) where
  -- The part after the list: `len(clusters) == 0 || len(customFields) == 0`.
  unfoldable pub with_custom_fields :
      List CapiCluster → List Item → Map String → Result (List CapiCluster)
  unfolding eval_custom_fields assign_fields
  with_custom_fields [] items fields = ok []
  with_custom_fields (c ∷ cs) items [] = ok (c ∷ cs)
  with_custom_fields (c ∷ cs) items (f ∷ fields) = elim (eval_custom_fields jq items (f ∷ fields)) [
    | ok values ↦ ok (assign_fields (c ∷ cs) values)
    | err e ↦ err (wrap "capi: evaluating custom_fields" e)
  ]

  unfoldable pub list_clusters_for_context :
      {X : Type 0} → Clients X → String → String → Map String → Action X (List CapiCluster)
  unfolding with_custom_fields
  list_clusters_for_context clients kubeconfig_name context fields = do
    items ← annotate "capi: listing clusters" clients.list_clusters
    lift (with_custom_fields (map (cluster_of_item kubeconfig_name context) items) items fields)
