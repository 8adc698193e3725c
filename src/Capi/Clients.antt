-- ===== src/Capi/Clients.antt =====
-- The calls of the Kubernetes clients, of jq and of YAML that internal/capi makes, as parameters.
use capo_shell_mcp.Prelude.{ℤ, String, Option, List, Map, Result}
use capo_shell_mcp.Action.{Action}
use capo_shell_mcp.Config.Value.{Value, Fields}
use capo_shell_mcp.Capi.ReadOnly.{Api}

-- One `unstructured.Unstructured`: GetNamespace, GetName and Object.
pub record Item : Type 0 where
  pub namespace : String
  pub name : String
  pub object : Fields

-- The clients of one context. A Secret is given by its Data.
pub record Clients (X : Type 0) : Type 0 where
  pub list_clusters : Action X (List Item)
  -- a namespace and a label selector
  pub list_open_stack_clusters : String → String → Action X (List Item)
  pub get_secret : String → String → Action X (Map String)
  pub rbac : Api X
  -- namespace, name and expiration; the token of the status
  pub create_token : String → String → ℤ → Action X String

-- The two clients that such a bundle is made of.
pub record DynamicClient (X : Type 0) : Type 0 where
  pub list_clusters : Action X (List Item)
  pub list_open_stack_clusters : String → String → Action X (List Item)

pub record TypedClient (X : Type 0) : Type 0 where
  pub get_secret : String → String → Action X (Map String)
  pub rbac : Api X
  pub create_token : String → String → ℤ → Action X String

-- The helpers of `unstructured`, with the value that they give where the field is not there.
pub record Unstructured : Type 0 where
  pub nested_string : Fields → List String → String
  pub nested_string_slice : Fields → List String → List String
  pub nested_field_no_copy : Fields → List String → Option Value

-- gojq. A run gives its first output, or none; an output may be an error.
pub record Jq (Query Code : Type 0) : Type 0 where
  pub parse : String → Result Query
  pub compile : Query → Result Code
  pub run : Code → Value → Option (Result Value)
  -- `%q` of a text
  pub quote : String → String
