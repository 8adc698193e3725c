-- ===== src/Capi/ReadOnly.antt =====
-- internal/capi/readonly.go: `EnsureReadOnlyRBAC`. The Kubernetes API is a parameter; a call gives
-- `none`, or its error, and the state of the cluster after it.
pub mod Laws
pub mod Success
pub mod Kubeconfig
pub mod Fake
mod Tests
use Prim.Native.Char.{Char, code}
use capo_shell_mcp.Prelude.{
  String, Bool, true, false, ◌&&◌, ◌||◌, Option, none, some, List, [], ◌∷◌, Result, ok, err, wrap,
  external, eqb, if◌then◌else◌,
}

-- An error of the API: `IsAlreadyExists`, `IsInvalid`, or another one, with its text.
pub data ApiError : Type 0 where
  already_exists invalid other : String → ApiError

pub record PolicyRule : Type 0 where
  pub api_groups : List String
  pub resources : List String
  pub non_resource_urls : List String
  pub verbs : List String

pub record ClusterRole : Type 0 where
  pub name : String
  pub rules : List PolicyRule

pub record RoleRef : Type 0 where
  pub api_group : String
  pub kind : String
  pub name : String

pub record Subject : Type 0 where
  pub kind : String
  pub name : String
  pub namespace : String

pub record ClusterRoleBinding : Type 0 where
  pub name : String
  pub role_ref : RoleRef
  pub subjects : List Subject

abbrev pub read_only_sa_name : String
read_only_sa_name = "capi-shell-mcp-read-only"

abbrev pub read_only_namespace : String
read_only_namespace = "kube-system"

abbrev pub read_only_cluster_role : ClusterRole
read_only_cluster_role = record {
  name = read_only_sa_name;
  rules =
      record {
        api_groups = "*" ∷ [];
        resources = "*" ∷ [];
        non_resource_urls = [];
        verbs = "get" ∷ "list" ∷ "watch" ∷ [];
      }
      ∷ record { api_groups = []; resources = []; non_resource_urls = "*" ∷ []; verbs = "get" ∷ [] }
      ∷ [];
}

abbrev pub read_only_cluster_role_binding : ClusterRoleBinding
read_only_cluster_role_binding = record {
  name = read_only_sa_name;
  role_ref = record {
    api_group = "rbac.authorization.k8s.io";
    kind = "ClusterRole";
    name = read_only_sa_name;
  };
  subjects =
      record { kind = "ServiceAccount"; name = read_only_sa_name; namespace = read_only_namespace }
      ∷ [];
}

-- The calls of client-go that the function makes.
pub record Api (S : Type 0) : Type 0 where
  pub create_service_account : String → String → S → Option ApiError × S
  pub create_cluster_role : ClusterRole → S → Option ApiError × S
  pub update_cluster_role : ClusterRole → S → Option ApiError × S
  pub create_binding : ClusterRoleBinding → S → Option ApiError × S
  pub update_binding : ClusterRoleBinding → S → Option ApiError × S
  pub delete_binding : String → S → Option ApiError × S

abbrev pub text_of : ApiError → String
text_of (already_exists t) = t
text_of (invalid t) = t
text_of (other t) = t

abbrev pub is_already_exists : ApiError → Bool
is_already_exists (already_exists _) = true
is_already_exists _ = false

abbrev is_invalid : ApiError → Bool
is_invalid (invalid _) = true
is_invalid _ = false

abbrev has_prefix : String → String → Bool
has_prefix String.[] s = true
has_prefix (String.◌∷◌ c p) String.[] = false
has_prefix (String.◌∷◌ c p) (String.◌∷◌ d s) = eqb (code c) (code d) && has_prefix p s

-- strings.Contains(s, p)
abbrev has_text : String → String → Bool
has_text p String.[] = has_prefix p String.[]
has_text p (String.◌∷◌ c s) = has_prefix p (String.◌∷◌ c s) || has_text p s

unfoldable pub is_immutable_role_ref_error : ApiError → Bool
is_immutable_role_ref_error e =
    is_invalid e && (has_text "roleRef" (text_of e) && has_text "immutable" (text_of e))

module _ {S : Type 0} where
  -- if err != nil
  abbrev pub check {ℓ} : {A : Type ℓ} → (S → A) → (ApiError → S → A) → Option ApiError × S → A
  check next failed (none, s) = next s
  check next failed (some e, s) = failed e s

  abbrev pub done : S → Result (Unit {0}) × S
  done s = (ok tt, s)

  abbrev pub failing : String → ApiError → S → Result (Unit {0}) × S
  failing prefix e s = (err (wrap prefix (external (text_of e))), s)

module _ {S : Type 0} (api : Api S) where
  unfoldable pub recreate_binding : S → Result (Unit {0}) × S
  recreate_binding s =
      check
        (λ s'.
          check done (failing "capi: recreating read-only ClusterRoleBinding")
            (api.create_binding read_only_cluster_role_binding s'))
        (failing "capi: deleting read-only ClusterRoleBinding for recreate")
        (api.delete_binding read_only_sa_name s)

  unfoldable pub replace_binding : S → Result (Unit {0}) × S
  unfolding recreate_binding
  replace_binding s =
      check done
        (λ e s'.
          if is_immutable_role_ref_error e
          then recreate_binding s'
          else failing "capi: replacing read-only ClusterRoleBinding" e s')
        (api.update_binding read_only_cluster_role_binding s)

  unfoldable pub ensure_binding : S → Result (Unit {0}) × S
  unfolding replace_binding
  ensure_binding s =
      check done
        (λ e s'.
          if is_already_exists e
          then replace_binding s'
          else failing "capi: creating read-only ClusterRoleBinding" e s')
        (api.create_binding read_only_cluster_role_binding s)

  unfoldable pub ensure_role : S → Result (Unit {0}) × S
  unfolding ensure_binding
  ensure_role s =
      check ensure_binding
        (λ e s'.
          if is_already_exists e
          then check ensure_binding (failing "capi: replacing read-only ClusterRole")
              (api.update_cluster_role read_only_cluster_role s')
          else failing "capi: creating read-only ClusterRole" e s')
        (api.create_cluster_role read_only_cluster_role s)

  unfoldable pub ensure_read_only_rbac : S → Result (Unit {0}) × S
  unfolding ensure_role
  ensure_read_only_rbac s =
      check ensure_role
        (λ e s'.
          if is_already_exists e
          then ensure_role s'
          else failing "capi: creating read-only ServiceAccount" e s')
        (api.create_service_account read_only_namespace read_only_sa_name s)
