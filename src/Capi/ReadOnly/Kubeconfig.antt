-- ===== src/Capi/ReadOnly/Kubeconfig.antt =====
-- internal/capi/readonly.go: `CreateReadOnlyKubeconfig`. `unmarshal_clusters` gives the server and the
-- CA data of each cluster of a kubeconfig; `marshal` is yaml.Marshal.
pub mod Laws
use capo_shell_mcp.Prelude.{
  ℤ, String, List, [], ◌∷◌, trim_space, Result, ok, err, message, ◌==◌, if◌then◌else◌,
}
use capo_shell_mcp.Action.{Action, pure, lift, annotate, noted, ◌>>=◌, ◌>>◌}
use capo_shell_mcp.Config.Value.{Value, text, object, array, Values, nil, cons, Fields, end, field}
use capo_shell_mcp.Capi.Clients.{Clients}
use capo_shell_mcp.Capi.ReadOnly.{read_only_sa_name, read_only_namespace, ensure_read_only_rbac}

abbrev only : Value → Value
only v = array (cons v nil)

-- The map `out`; the order of its keys is that of the source.
unfoldable pub kubeconfig_value : String → String → String → Value
kubeconfig_value server ca token = object (
    field "apiVersion" (text "v1") (
      field "kind" (text "Config") (
        field "clusters"
          (only (
            object (
              field "name" (text "workload") (
                field "cluster"
                  (object (
                    field "server" (text server)
                      (field "certificate-authority-data" (text ca) end)))
                  end))))
          (field "contexts"
            (only (
              object (
                field "name" (text "readonly") (
                  field "context"
                    (object (
                      field "cluster" (text "workload") (
                        field "user" (text read_only_sa_name)
                          (field "namespace" (text read_only_namespace) end))))
                    end))))
            (field "current-context" (text "readonly") (
              field "users"
                (only (
                  object (
                    field "name" (text read_only_sa_name)
                      (field "user" (object (field "token" (text token) end)) end))))
                end))))))

-- parsed.Clusters[0]
abbrev first_cluster : List (String × String) → Result (String × String)
first_cluster [] = err (message "createReadOnlyKubeconfig: no cluster found in admin kubeconfig")
first_cluster (c ∷ cs) = ok c

abbrev token_or_error : String → Result String
token_or_error token =
    if token == ""
    then err (message "createReadOnlyKubeconfig: token request returned no token")
    else ok token

module _ {X : Type 0} (clients : Clients X)
    (unmarshal_clusters : String → Result (List (String × String)))
    (marshal : Value → Result String) where
  -- From the call of EnsureReadOnlyRBAC on.
  unfoldable pub mint_kubeconfig : String → String → ℤ → Action X String
  unfolding kubeconfig_value trim_space
  mint_kubeconfig server ca duration_seconds = do
    ensure_read_only_rbac clients.rbac
    status ←
        annotate "capi: requesting read-only token"
          (clients.create_token read_only_namespace read_only_sa_name duration_seconds)
    token ← lift (token_or_error (trim_space status))
    lift (noted "capi: rendering read-only kubeconfig" (marshal (kubeconfig_value server ca token)))

  unfoldable pub create_read_only_kubeconfig : String → ℤ → Action X String
  unfolding mint_kubeconfig
  create_read_only_kubeconfig admin_kc_yaml duration_seconds = do
    parsed ← lift (noted "capi: parsing admin kubeconfig" (unmarshal_clusters admin_kc_yaml))
    cluster ← lift (first_cluster parsed)
    mint_kubeconfig cluster.0 cluster.1 duration_seconds
