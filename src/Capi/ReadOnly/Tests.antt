-- ===== src/Capi/ReadOnly/Tests.antt =====
-- Tests of `EnsureReadOnlyRBAC` against a cluster that holds three objects at most.
use capo_shell_mcp.Prelude.{
  pos, String, ◌≡◌, ◌≢◌, inl, inr, refl, Bool-cases, Option-cases, List, ◌∷◌, ok, trim_space, true,
  none, some, ◌==◌, arith,
}
use capo_shell_mcp.Capi.ReadOnly.{
  is_immutable_role_ref_error, read_only_sa_name, read_only_cluster_role,
  read_only_cluster_role_binding, ensure_read_only_rbac, ensure_role, ensure_binding,
  replace_binding, recreate_binding,
}
use capo_shell_mcp.Capi.ReadOnly.Laws.{ensure_read_only_rbac_lem}
use capo_shell_mcp.Capi.ReadOnly.Success.{Granting, IsUpdated}
use capo_shell_mcp.Capi.ReadOnly.Kubeconfig.{kubeconfig_value, create_read_only_kubeconfig}
use capo_shell_mcp.Capi.ReadOnly.Kubeconfig.Laws.{create_read_only_kubeconfig_lem}
use capo_shell_mcp.Capi.ReadOnly.Fake.{
  Cluster, api, documented, rebound, clients, one_cluster, render,
}

ensure_read_only_rbac_lem_test :
    ((ensure_read_only_rbac api rebound).1.account ≡ true)
    × ((ensure_read_only_rbac api rebound).1.role ≡ some read_only_cluster_role)
    × ((ensure_read_only_rbac api rebound).1.binding ≡ some read_only_cluster_role_binding)
unfolding ensure_read_only_rbac ensure_role ensure_binding replace_binding recreate_binding
    is_immutable_role_ref_error
ensure_read_only_rbac_lem_test = ensure_read_only_rbac_lem api documented rebound refl

replaced :
    (s : Cluster)
    → s.binding ≢ none
    → IsUpdated (api.update_binding read_only_cluster_role_binding s).0
unfolding is_immutable_role_ref_error
replaced s there = elim (Option-cases s.binding) [
  | inl n ↦ absurd (there n)
  | inr (c, i) ↦ elim (Bool-cases (c.role_ref.name == read_only_sa_name)) [
    | inl e ↦ rw (i, e) tt
    | inr e ↦ rw (i, e) refl
  ]
]

abbrev granting : Granting api documented
granting = record {
  account_granted = λ s. elim (Bool-cases s.account) [ inl a ↦ rw a refl | inr a ↦ rw a tt ];
  role_granted = λ s. elim (Option-cases s.role) [ inl n ↦ rw n tt | inr (q, i) ↦ rw i refl ];
  role_there = λ s h a. ground arith;
  role_update_granted = λ s there. ground arith;
  binding_granted = λ s. elim (Option-cases s.binding) [ inl n ↦ rw n tt | inr (c, i) ↦ rw i refl ];
  binding_there = λ s h a. ground arith;
  binding_update_granted = replaced;
  binding_refused = λ s h. ground arith;
  binding_deleted = λ s there. ground arith;
  binding_gone = λ s h. ground arith;
  binding_free = λ s n. ground arith;
}

create_read_only_kubeconfig_lem_test :
    (cluster : String × String) × (rest : List (String × String)) × (status : String)
    × (u : Cluster) × (one_cluster "admin" ≡ ok (cluster ∷ rest))
    × (u.account ≡ true)
    × (u.role ≡ some read_only_cluster_role)
    × (u.binding ≡ some read_only_cluster_role_binding)
    × (clients.create_token "kube-system" read_only_sa_name (pos 3600) u
        ≡ (ok status, (ensure_read_only_rbac api rebound).1))
    × (trim_space status ≢ "")
    × (render (kubeconfig_value cluster.0 cluster.1 (trim_space status)) ≡ ok "kubeconfig")
unfolding create_read_only_kubeconfig ensure_read_only_rbac ensure_role ensure_binding
    replace_binding recreate_binding is_immutable_role_ref_error trim_space
create_read_only_kubeconfig_lem_test =
    create_read_only_kubeconfig_lem clients documented one_cluster render "admin" (pos 3600) rebound
      refl
