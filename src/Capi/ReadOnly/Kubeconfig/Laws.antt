-- ===== src/Capi/ReadOnly/Kubeconfig/Laws.antt =====
-- What a read-only kubeconfig is made of.
use capo_shell_mcp.Prelude.{
  ℤ, String, ◌≡◌, ◌≢◌, ap, ap₂, ◌∙◌, some, List, [], ◌∷◌, trim_space, Result, ok, eq_iff, arith,
}
use capo_shell_mcp.Action.{noted, noted-ok, annotate, follow-ok, follow-lift}
use capo_shell_mcp.Config.Value.{Value}
use capo_shell_mcp.Capi.Clients.{Clients}
use capo_shell_mcp.Capi.ReadOnly.{
  read_only_sa_name, read_only_namespace, read_only_cluster_role, read_only_cluster_role_binding,
  ensure_read_only_rbac,
}
use capo_shell_mcp.Capi.ReadOnly.Laws.{Documented, ensure_read_only_rbac_lem}
use capo_shell_mcp.Capi.ReadOnly.Kubeconfig.{
  kubeconfig_value, mint_kubeconfig, create_read_only_kubeconfig, first_cluster, token_or_error,
}

first_cluster-ok :
    (l : List (String × String)) {c : String × String}
    → first_cluster l ≡ ok c
    → (rest : List (String × String)) × (l ≡ c ∷ rest)
first_cluster-ok [] h = cc
first_cluster-ok (d ∷ rest) h = (rest, cc)

token_or_error-ok : (t : String) {u : String} → token_or_error t ≡ ok u → (t ≢ "") × (t ≡ u)
token_or_error-ok t h = ground (arith, eq_iff t "")

module _ {X : Type 0} (clients : Clients X) (d : Documented clients.rbac)
    (unmarshal_clusters : String → Result (List (String × String)))
    (marshal : Value → Result String) where
  mint_kubeconfig-ok :
      (server ca : String) (n : ℤ) (s : X) {kc : String} {s' : X}
      → mint_kubeconfig clients unmarshal_clusters marshal server ca n s ≡ (ok kc, s')
      → (status : String) × (u : X) × (d.HasAccount u)
        × (d.role_of u ≡ some read_only_cluster_role)
        × (d.binding_of u ≡ some read_only_cluster_role_binding)
        × (clients.create_token read_only_namespace read_only_sa_name n u ≡ (ok status, s'))
        × (trim_space status ≢ "")
        × (marshal (kubeconfig_value server ca (trim_space status)) ≡ ok kc)
  unfolding mint_kubeconfig
  mint_kubeconfig-ok server ca n s h =
      let (done, ensured, h') = follow-ok _ (ensure_read_only_rbac clients.rbac s) h in
      let u : X = (ensure_read_only_rbac clients.rbac s).1 in
      let asked =
        annotate "capi: requesting read-only token"
          (clients.create_token read_only_namespace read_only_sa_name n) u in
      let (status, answered, h'') = follow-ok _ asked h' in
      let (token, taken, rendered) =
        follow-lift
          (λ t.
            noted "capi: rendering read-only kubeconfig" (marshal (kubeconfig_value server ca t)))
          (token_or_error (trim_space status), asked.1) h'' in
      let (account, role, binding) = ensure_read_only_rbac_lem clients.rbac d s ensured in
      let (full, same) = token_or_error-ok (trim_space status) (ap (λ r. r.0) taken) in
      (
        status,
        u,
        account,
        role,
        binding,
        ap₂ (λ r t. (r, t))
            (noted-ok _ (clients.create_token read_only_namespace read_only_sa_name n u).0 answered)
            (ap (λ r. r.1) taken),
        full,
        ap (λ t. marshal (kubeconfig_value server ca t)) same ∙ noted-ok _ _ rendered,
      )

  -- For an API that keeps its documented promises: a kubeconfig that `CreateReadOnlyKubeconfig` gives is
  -- made of the server and the CA data of the first cluster of the admin kubeconfig and of a token, not
  -- empty, of the read-only service account with the wanted expiration. The token was asked for in a
  -- state in which that account has exactly the read-only role and binding.
  pub create_read_only_kubeconfig_lem :
      (admin_kc : String) (n : ℤ) (s : X) {kc : String} {s' : X}
      → create_read_only_kubeconfig clients unmarshal_clusters marshal admin_kc n s ≡ (ok kc, s')
      → (cluster : String × String) × (rest : List (String × String)) × (status : String) × (u : X)
        × (unmarshal_clusters admin_kc ≡ ok (cluster ∷ rest))
        × (d.HasAccount u)
        × (d.role_of u ≡ some read_only_cluster_role)
        × (d.binding_of u ≡ some read_only_cluster_role_binding)
        × (clients.create_token read_only_namespace read_only_sa_name n u ≡ (ok status, s'))
        × (trim_space status ≢ "")
        × (marshal (kubeconfig_value cluster.0 cluster.1 (trim_space status)) ≡ ok kc)
  unfolding create_read_only_kubeconfig
  create_read_only_kubeconfig_lem admin_kc n s h =
      let (parsed, p, h') =
        follow-ok _ (noted "capi: parsing admin kubeconfig" (unmarshal_clusters admin_kc), s) h in
      let (cluster, q, h'') = follow-ok _ (first_cluster parsed, s) h' in
      let (rest, same) = first_cluster-ok parsed q in
      let (status, u, a, r, b, t, k, m) = mint_kubeconfig-ok cluster.0 cluster.1 n s h'' in
      (
        cluster,
        rest,
        status,
        u,
        noted-ok _ (unmarshal_clusters admin_kc) p ∙ ap ok same,
        a,
        r,
        b,
        t,
        k,
        m,
      )
