-- ===== src/Capi/Listing/Laws.antt =====
-- The clusters of a listing, and their custom fields.
use capo_shell_mcp.Prelude.{
  String, ◌≡◌, inl, inr, refl, ap, subst, ap₂, ◌∙◌, List, [], ◌∷◌, map, Map, ok, Result-cases,
}
use capo_shell_mcp.Action.{noted-ok, follow-lift}
use capo_shell_mcp.Capi.Target.{CapiCluster, path_fields}
use capo_shell_mcp.Capi.Clients.{Item, Clients, Jq}
use capo_shell_mcp.Capi.CustomFields.{eval_custom_fields}
use capo_shell_mcp.Capi.Listing.{
  cluster_of_item, with_fields, assign_fields, with_custom_fields, list_clusters_for_context,
}

with_fields-path :
    (c : CapiCluster) (m : Map String) → path_fields (with_fields c m) ≡ path_fields c
with_fields-path c [] = refl
with_fields-path c (p ∷ m) = refl

assign_fields-path :
    (cs : List CapiCluster) (values : List (Map String))
    → map path_fields (assign_fields cs values) ≡ map path_fields cs
unfolding assign_fields
assign_fields-path [] values = refl
assign_fields-path (c ∷ cs) [] = refl
assign_fields-path (c ∷ cs) (m ∷ values) =
    ap₂ (λ p ps. p ∷ ps) (with_fields-path c m) (assign_fields-path cs values)

-- The path of a cluster is what its item says.
abbrev pub item_path : String → String → Item → List String
item_path kubeconfig_name context item = kubeconfig_name ∷ context ∷ item.namespace ∷ item.name ∷ []

cluster_of_item-path :
    (kubeconfig_name context : String) (items : List Item)
    → map path_fields (map (cluster_of_item kubeconfig_name context) items)
      ≡ map (item_path kubeconfig_name context) items
cluster_of_item-path kubeconfig_name context [] = refl
cluster_of_item-path kubeconfig_name context (i ∷ items) =
    ap (λ ps. item_path kubeconfig_name context i ∷ ps)
      (cluster_of_item-path kubeconfig_name context items)

module _ {Query Code : Type 0} (jq : Jq Query Code) where
  with_custom_fields-path :
      (cs : List CapiCluster) (items : List Item) (fields : Map String) {out : List CapiCluster}
      → with_custom_fields jq cs items fields ≡ ok out
      → map path_fields out ≡ map path_fields cs
  unfolding with_custom_fields
  with_custom_fields-path [] items fields h = ap (map path_fields) {y = []} (cc)
  with_custom_fields-path (c ∷ cs) items [] h = ap (map path_fields) {y = c ∷ cs} (cc)
  with_custom_fields-path (c ∷ cs) items (f ∷ fields) {out} h =
      elim (Result-cases (eval_custom_fields jq items (f ∷ fields))) [
        | inl (values, i) ↦
            (let same : ok (assign_fields (c ∷ cs) values) ≡ ok out =
                rw (i, with_custom_fields) at h in
              subst (λ l. map path_fields l ≡ map path_fields (c ∷ cs)) (cc)
                (assign_fields-path (c ∷ cs) values))
        | inr (e, i) ↦ absurd (cc (rw (i, with_custom_fields) at h))
      ]

  -- The clusters that `ListClustersForContext` gives are those of the listing, in its order, with the namespace
  -- and the name of their item and the kubeconfig and context of the call, whatever the custom fields
  -- evaluate to.
  pub list_clusters_for_context-path :
      {X : Type 0} (clients : Clients X) (kubeconfig_name context : String) (fields : Map String)
      (s : X) {out : List CapiCluster} {s' : X}
      → list_clusters_for_context jq clients kubeconfig_name context fields s ≡ (ok out, s')
      → (items : List Item) × (clients.list_clusters s ≡ (ok items, s'))
        × (map path_fields out ≡ map (item_path kubeconfig_name context) items)
  unfolding list_clusters_for_context
  list_clusters_for_context-path clients kubeconfig_name context fields s h =
      let (items, listed, rest) =
        follow-lift
          (λ items.
            with_custom_fields jq (map (cluster_of_item kubeconfig_name context) items) items
              fields)
          _ h in
      let paths =
        with_custom_fields-path (map (cluster_of_item kubeconfig_name context) items) items fields
          rest in
      (
        items,
        ap₂ (λ r t. (r, t))
            (noted-ok "capi: listing clusters" (clients.list_clusters s).0 (ap (λ r. r.0) listed))
            (ap (λ r. r.1) listed),
        paths ∙ cluster_of_item-path kubeconfig_name context items,
      )
