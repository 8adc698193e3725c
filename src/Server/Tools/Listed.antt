-- ===== src/Server/Tools/Listed.antt =====
-- What `ListClusters`, and the tools for kubeconfigs, select.
use capo_shell_mcp.Prelude.{
  ◌≡◌, inl, inr, ◌↔◌, refl, sym, subst, String, false, List, [], ◌∷◌, map, In, contains,
  contains_iff, Bool-cases, Result, ok, Result-cases,
}
use capo_shell_mcp.Capi.Target.{CapiCluster, format_target}
use capo_shell_mcp.Capi.Resolve.{resolve_cluster_patterns}
use capo_shell_mcp.Capi.Resolve.Select.{SelectedBy}
use capo_shell_mcp.Capi.Resolve.Laws.{resolve_loose_lem}
use capo_shell_mcp.Server.Outside.{ResolvedCluster}
use capo_shell_mcp.Server.Tools.{filtered, keep}

abbrev pub clusters_of : List ResolvedCluster → List CapiCluster
clusters_of = map (λ r. r.cluster)

In-keep :
    (matched : List String) (rs : List ResolvedCluster) (r : ResolvedCluster)
    → In r (keep matched rs) ↔ (In r rs × In (format_target r.cluster) matched)
In-keep matched [] r = (λ h. absurd h, λ h. absurd h.0)
In-keep matched (x ∷ rs) r =
    let (to, from) = In-keep matched rs r in
    let there = contains_iff (format_target x.cluster) matched in
    elim (Bool-cases (contains (format_target x.cluster) matched)) [
      | inl e ↦ rw e (
        (λ h. elim h [
          | inl same ↦
              (inl same, subst (λ y. In (format_target y.cluster) matched) (sym same) (there.0 e))
          | inr i ↦ (inr (to i).0, (to i).1)
        ]),
        (λ (h, m). elim h [ inl same ↦ inl same | inr i ↦ inr (from (i, m)) ]),
      )
      | inr e ↦ rw e (
        (λ i. (inr (to i).0, (to i).1)),
        (λ (h, m). elim h [
          | inl same ↦
              absurd (cc (e, there.1 (subst (λ y. In (format_target y.cluster) matched) same m)))
          | inr i ↦ from (i, m)
        ]),
      )
    ]

-- With a filter, `ListClusters` shows the clusters of the listing that some entry of the filter
-- stands for, and no others.
pub filtered-In :
    (resolved : List ResolvedCluster) (p : String) (ps : List String) {kept : List ResolvedCluster}
    → filtered resolved (p ∷ ps) ≡ ok kept
    → (r : ResolvedCluster)
    → In r kept
      ↔ (In r resolved × SelectedBy (clusters_of resolved) (p ∷ ps) (format_target r.cluster))
unfolding filtered
filtered-In resolved p ps {kept} h r =
    let known : Unit {0} → Result (List CapiCluster) × Unit {0} =
      λ s. (ok (clusters_of resolved), s) in
    elim (Result-cases (resolve_cluster_patterns known (p ∷ ps) false tt).0) [
      | inr (e, i) ↦ absurd (cc (rw (i, filtered) at h))
      | inl (matched, i) ↦
          (let same : ok (keep matched resolved) ≡ ok kept = rw (i, filtered) at h in
            let selected =
              (resolve_loose_lem known (p ∷ ps) tt (format_target r.cluster) refl i).1 in
            let (to, from) = In-keep matched resolved r in
            let kept_lem : keep matched resolved ≡ kept = cc in
            subst
              (λ k. In r k ↔ (
                In r resolved
                × SelectedBy (clusters_of resolved) (p ∷ ps) (format_target r.cluster)))
              kept_lem ((λ h. ((to h).0, selected.0 (to h).1)), (λ (j, m). from (j, selected.1 m))))
    ]
