-- ===== src/Capi/OpenStack.antt =====
-- internal/capi/openstack.go. `unmarshal_clouds` is yaml.Unmarshal into `cloudsYAML`.
pub mod Laws
use capo_shell_mcp.Prelude.{
  String, ◌⊕◌, Option, none, some, List, [], ◌∷◌, Map, lookup, insert, ℤ, decimal_int, Result, ok,
  err, message, ◌==◌, if◌then◌else◌,
}
use capo_shell_mcp.Action.{Action, pure, raise, lift, annotate, ◌>>=◌}
use capo_shell_mcp.Config.Value.{Value, text, int, float, Fields}
use capo_shell_mcp.Capi.Clients.{Item, Clients, Unstructured}

pub record Cloud : Type 0 where
  pub auth : Map String
  pub region_name : String
  pub cacert : String
  pub auth_type : String
  pub interface : String
  pub identity_api_version : String

abbrev pub first : List Item → Option Item
first [] = none
first (x ∷ xs) = some x

-- cloud.Auth[k]
abbrev auth_field : Cloud → String → String
auth_field cloud k = elim (lookup k cloud.auth) [ none ↦ "" | some v ↦ v ]

abbrev pub or_if_empty : String → String → String
or_if_empty s d = if s == "" then d else s

-- The calls of `set`, in their order.
abbrev pub env_pairs : Cloud → Map String
env_pairs cloud =
    ("OS_AUTH_URL", auth_field cloud "auth_url")
    ∷ ("OS_USERNAME", auth_field cloud "username")
    ∷ ("OS_PASSWORD", auth_field cloud "password")
    ∷ ("OS_PROJECT_NAME", auth_field cloud "project_name")
    ∷ ("OS_USER_DOMAIN_NAME", auth_field cloud "user_domain_name")
    ∷ ("OS_PROJECT_DOMAIN_NAME", auth_field cloud "project_domain_name")
    ∷ ("OS_REGION_NAME", cloud.region_name)
    ∷ ("OS_CACERT", cloud.cacert)
    ∷ ("OS_APPLICATION_CREDENTIAL_ID", auth_field cloud "application_credential_id")
    ∷ ("OS_APPLICATION_CREDENTIAL_SECRET", auth_field cloud "application_credential_secret")
    ∷ ("OS_AUTH_TYPE", or_if_empty cloud.auth_type (auth_field cloud "auth_type"))
    ∷ ("OS_INTERFACE", cloud.interface)
    ∷ ("OS_IDENTITY_API_VERSION", cloud.identity_api_version)
    ∷ []

-- if v != "" { env[k] = v }
abbrev pub set_env : String → String → Map String → Map String
set_env k v env = if v == "" then env else insert k v env

unfoldable pub set_all : Map String → Map String → Map String
set_all [] env = env
set_all ((k, v) ∷ pairs) env = set_all pairs (set_env k v env)

unfoldable pub env_of : Cloud → Map String
unfolding set_all
env_of cloud = set_all (env_pairs cloud) []

module _ {X : Type 0} (clients : Clients X) (u : Unstructured) where
  unfoldable pub fetch_open_stack_cluster : String → String → Action X (Option Item)
  fetch_open_stack_cluster namespace cluster_name = do
    items ← annotate "capi: listing OpenStackClusters" (
        clients.list_open_stack_clusters namespace
          ("cluster.x-k8s.io/cluster-name=" ⊕ cluster_name))
    pure (first items)

  -- if !ok || len(raw) == 0
  abbrev pub clouds_text : String → Option String → Result String
  clouds_text secret_name none =
      err (message ("Secret '" ⊕ (secret_name ⊕ "' has no 'clouds.yaml' key")))
  clouds_text secret_name (some raw) =
      if raw == ""
      then err (message ("Secret '" ⊕ (secret_name ⊕ "' has no 'clouds.yaml' key")))
      else ok raw

  abbrev pub cloud_named : String → Map Cloud → Result Cloud
  cloud_named name clouds = elim (lookup name clouds) [
    | some cloud ↦ ok cloud
    | none ↦ err (message ("OpenStack cloud '" ⊕ (name ⊕ "' not found in clouds.yaml")))
  ]

  abbrev pub found_item : String → String → Option Item → Result Item
  found_item namespace cluster_name none = err (
      message (
        "No OpenStackCluster found for cluster '"
        ⊕ (cluster_name ⊕ ("' in namespace '" ⊕ (namespace ⊕ "'")))))
  found_item namespace cluster_name (some osc) = ok osc

  module _ (unmarshal_clouds : String → Result (Map Cloud)) where
    -- The cloud whose variables are given.
    unfoldable pub fetch_cloud : String → String → Action X Cloud
    unfolding fetch_open_stack_cluster
    fetch_cloud namespace cluster_name = do
      found ← fetch_open_stack_cluster namespace cluster_name
      osc ← lift (found_item namespace cluster_name found)
      let secret_name =
          or_if_empty (u.nested_string osc.object ("spec" ∷ "identityRef" ∷ "name" ∷ []))
            (cluster_name ⊕ "-cloud-config")
      let cloud_name =
          or_if_empty (u.nested_string osc.object ("spec" ∷ "cloudName" ∷ [])) "openstack"
      secret ←
          annotate ("capi: fetching secret " ⊕ (namespace ⊕ ("/" ⊕ secret_name)))
            (clients.get_secret namespace secret_name)
      raw ← lift (clouds_text secret_name (lookup "clouds.yaml" secret))
      clouds ← annotate "capi: parsing clouds.yaml" (lift (unmarshal_clouds raw))
      lift (cloud_named cloud_name clouds)

    unfoldable pub fetch_open_stack_env : String → String → Action X (Map String)
    unfolding fetch_cloud env_of
    fetch_open_stack_env namespace cluster_name = do
      cloud ← fetch_cloud namespace cluster_name
      pure (env_of cloud)

  -- The switch of `nestedStringOrNumber`.
  abbrev string_or_number : Option Value → String
  string_or_number (some (text s)) = s
  string_or_number (some (int n)) = decimal_int n
  string_or_number (some (float n)) = decimal_int n
  string_or_number _ = ""

  unfoldable pub nested_string_or_number : Fields → List String → String
  nested_string_or_number obj fields = string_or_number (u.nested_field_no_copy obj fields)

  abbrev endpoint : String → String → Option (String × String)
  endpoint host port = if host == "" then none else if port == "" then none else some (host, port)

  -- The result of an OpenStackCluster that is there: host and port, if its CIDRs are restricted.
  unfoldable pub server_info : Fields → Option (String × String)
  unfolding nested_string_or_number
  server_info object =
      elim (u.nested_string_slice object ("spec" ∷ "apiServerLoadBalancer" ∷ "allowedCIDRs" ∷ [])) [
        | [] ↦ none
        | _ ∷ _ ↦
            endpoint (u.nested_string object ("spec" ∷ "controlPlaneEndpoint" ∷ "host" ∷ []))
              (nested_string_or_number object ("spec" ∷ "controlPlaneEndpoint" ∷ "port" ∷ []))
      ]

  abbrev info_of : Option Item → Option (String × String)
  info_of none = none
  info_of (some osc) = server_info osc.object

  -- `none` stands for ok = false.
  unfoldable pub fetch_api_server_info : String → String → Action X (Option (String × String))
  unfolding fetch_open_stack_cluster server_info
  fetch_api_server_info namespace cluster_name = do
    found ← fetch_open_stack_cluster namespace cluster_name
    pure (info_of found)
