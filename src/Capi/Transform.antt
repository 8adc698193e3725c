-- ===== src/Capi/Transform.antt =====
-- internal/capi/transform.go, and `FetchWorkloadKubeconfig` of internal/capi/kubeconfig_fetch.go
use capo_shell_mcp.Prelude.{
  String, ◌⊕◌, join, Option, none, some, List, [], ◌∷◌, ◌++◌, lookup, Result, ok, err, message,
  ◌>>=◌, ◌==◌, if◌then◌else◌,
}
use capo_shell_mcp.Action.{Action, noted, annotate, follow, lift}
use capo_shell_mcp.Config.Value.{Value}
use capo_shell_mcp.Config.Load.{KubeconfigTransforms}
use capo_shell_mcp.Capi.Clients.{Clients, Jq}

abbrev part : String → String → List String
part section expr = if expr == "" then [] else (section ⊕ (" |= map(" ⊕ (expr ⊕ ")"))) ∷ []

unfoldable pub transform_query : KubeconfigTransforms → String
transform_query t =
    join " | "
      (part ".clusters" t.clusters ++ (part ".contexts" t.contexts ++ part ".users" t.users))

abbrev first_output : Option (Result Value) → Result Value
first_output none = err (message "jq: transform produced no output")
first_output (some r) = r

module _ {Query Code : Type 0} (jq : Jq Query Code) (unmarshal : String → Result Value)
    (marshal : Value → Result String) where
  unfoldable pub apply_kubeconfig_transform : String → KubeconfigTransforms → Result String
  unfolding transform_query
  apply_kubeconfig_transform kc_yaml transforms = do
    query ← jq.parse (transform_query transforms)
    code ← jq.compile query
    input ← noted "capi: parsing kubeconfig for transform" (unmarshal kc_yaml)
    v ← first_output (jq.run code input)
    noted "capi: rendering transformed kubeconfig" (marshal v)

-- if !ok || len(value) == 0
abbrev secret_value : String → Option String → Result String
secret_value name none =
    err (message ("fetchWorkloadKubeconfig: secret \"" ⊕ (name ⊕ "\" has no 'value' key")))
secret_value name (some value) =
    if value == ""
    then err (message ("fetchWorkloadKubeconfig: secret \"" ⊕ (name ⊕ "\" has no 'value' key")))
    else ok value

-- The name is shown as it is; `%q` would escape a quote in it.
unfoldable pub fetch_workload_kubeconfig :
    {X : Type 0} → Clients X → String → String → Action X String
fetch_workload_kubeconfig clients namespace cluster_name s =
    let name = cluster_name ⊕ "-kubeconfig" in
    follow (λ secret. lift (secret_value name (lookup "value" secret)))
      (annotate ("capi: fetching secret " ⊕ (namespace ⊕ ("/" ⊕ name)))
        (clients.get_secret namespace name) s)
