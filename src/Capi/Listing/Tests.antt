-- ===== src/Capi/Listing/Tests.antt =====
-- Tests of the listing and of the OpenStack variables against one cluster.
use capo_shell_mcp.Prelude.{
  ℕ, ◌+◌, String, ◌≡◌, refl, none, some, List, [], ◌∷◌, map, Map, lookup, insert, Result, ok,
}
use capo_shell_mcp.Config.Value.{text, object, array, nil, cons, end, field}
use capo_shell_mcp.Capi.Target.{path_fields}
use capo_shell_mcp.Capi.Clients.{Item, Clients, Unstructured, Jq}
use capo_shell_mcp.Capi.CustomFields.{eval_custom_fields, field_values, result_values}
use capo_shell_mcp.Capi.Listing.{list_clusters_for_context, with_custom_fields, assign_fields}
use capo_shell_mcp.Capi.Listing.Laws.{item_path, list_clusters_for_context-path}
use capo_shell_mcp.Capi.OpenStack.{
  Cloud, fetch_cloud, fetch_open_stack_cluster, fetch_open_stack_env, env_of,
}
use capo_shell_mcp.Capi.OpenStack.Laws.{FoundCloud, HasVariables, fetch_open_stack_env-lookup}

abbrev items : List Item
items =
    record { namespace = "dev"; name = "one"; object = end }
    ∷ record { namespace = "live"; name = "two"; object = end }
    ∷ []

-- The state counts the calls.
abbrev clients : Clients ℕ
clients = record {
  list_clusters = λ n. (ok items, n + 1);
  list_open_stack_clusters = λ namespace selector n. (ok items, n + 1);
  get_secret = λ namespace name n. (ok (("clouds.yaml", "clouds") ∷ []), n + 1);
  rbac = record {
    create_service_account = λ namespace name n. (none, n);
    create_cluster_role = λ r n. (none, n);
    update_cluster_role = λ r n. (none, n);
    create_binding = λ b n. (none, n);
    update_binding = λ b n. (none, n);
    delete_binding = λ name n. (none, n);
  };
  create_token = λ namespace name seconds n. (ok "token", n);
}

-- Each item has the version v1, except for an item without one.
abbrev jq : Jq String String
jq = record {
  parse = λ q. ok q;
  compile = λ q. ok q;
  run = λ code v.
      some (ok (array (cons (object (field "version" (text "v1") end)) (cons (object end) nil))));
  quote = λ t. t;
}

abbrev fields : Map String
fields = ("version", ".spec.version") ∷ []

listed : list_clusters_for_context jq clients "prod" "ctx" fields 0 ≡ (
  ok (
      record {
        kubeconfig_name = "prod";
        context = "ctx";
        namespace = "dev";
        name = "one";
        custom_fields = ("version", "v1") ∷ [];
      }
      ∷ record {
        kubeconfig_name = "prod";
        context = "ctx";
        namespace = "live";
        name = "two";
        custom_fields = [];
      }
      ∷ []),
  1,
)
unfolding list_clusters_for_context with_custom_fields assign_fields eval_custom_fields field_values
    result_values insert
listed = refl

list_clusters_for_context-path_test :
    (found : List Item) × (clients.list_clusters 0 ≡ (ok found, 1))
    × (map path_fields (
          record {
            kubeconfig_name = "prod";
            context = "ctx";
            namespace = "dev";
            name = "one";
            custom_fields = ("version", "v1") ∷ [];
          }
          ∷ record {
            kubeconfig_name = "prod";
            context = "ctx";
            namespace = "live";
            name = "two";
            custom_fields = [];
          }
          ∷ [])
        ≡ map (item_path "prod" "ctx") found)
list_clusters_for_context-path_test =
    list_clusters_for_context-path jq clients "prod" "ctx" fields 0 listed

abbrev unstructured : Unstructured
unstructured = record {
  nested_string = λ obj path. "";
  nested_string_slice = λ obj path. [];
  nested_field_no_copy = λ obj path. none;
}

abbrev cloud : Cloud
cloud = record {
  auth = ("auth_url", "https://keystone") ∷ ("username", "admin") ∷ [];
  region_name = "RegionOne";
  cacert = "";
  auth_type = "";
  interface = "public";
  identity_api_version = "3";
}

abbrev clouds : String → Result (Map Cloud)
clouds raw = ok (("openstack", cloud) ∷ [])

fetch_open_stack_env-lookup_example :
    (c : Cloud) × FoundCloud clients unstructured clouds "dev" "one" 0 2 c
    × HasVariables c (
        ("OS_AUTH_URL", "https://keystone")
        ∷ ("OS_USERNAME", "admin")
        ∷ ("OS_REGION_NAME", "RegionOne")
        ∷ ("OS_INTERFACE", "public")
        ∷ ("OS_IDENTITY_API_VERSION", "3")
        ∷ [])
unfolding fetch_open_stack_env env_of fetch_cloud fetch_open_stack_cluster lookup insert
fetch_open_stack_env-lookup_example =
    fetch_open_stack_env-lookup clients unstructured clouds "dev" "one" 0 refl
