-- ===== src/Capi/ReadOnly/Success.antt =====
-- `EnsureReadOnlyRBAC` for an API that grants what it is asked.
use capo_shell_mcp.Prelude.{◌≡◌, ◌≢◌, true, Option, none, some, Result, ok}
use capo_shell_mcp.Capi.ReadOnly.{
  ApiError, Api, is_already_exists, is_immutable_role_ref_error, read_only_sa_name,
  read_only_namespace, read_only_cluster_role, read_only_cluster_role_binding,
}
use capo_shell_mcp.Capi.ReadOnly.Laws.{Documented}

-- A creation that succeeds, or finds the object there.
abbrev pub IsCreated : Option ApiError → Type 0
IsCreated none = Unit
IsCreated (some e) = is_already_exists e ≡ true

-- An update that succeeds, or is refused since the role of a binding cannot change.
abbrev pub IsUpdated : Option ApiError → Type 0
IsUpdated none = Unit
IsUpdated (some e) = is_immutable_role_ref_error e ≡ true

-- Nothing is refused for want of rights, of what the function asks for. What cannot be created is there, what is
-- there can be updated, except the role of a binding, and an update that is refused changes nothing. A
-- binding that is there can be deleted; an API answers that there is none otherwise. What is not there
-- can be created.
pub record Granting {S : Type 0} (api : Api S) (d : Documented api) : Type 0 where
  pub account_granted :
      (s : S) → IsCreated (api.create_service_account read_only_namespace read_only_sa_name s).0
  pub role_granted : (s : S) → IsCreated (api.create_cluster_role read_only_cluster_role s).0
  pub role_there :
      (s : S) {e : ApiError}
      → (api.create_cluster_role read_only_cluster_role s).0 ≡ some e
      → is_already_exists e ≡ true
      → d.role_of (api.create_cluster_role read_only_cluster_role s).1 ≢ none
  pub role_update_granted :
      (s : S) → d.role_of s ≢ none → (api.update_cluster_role read_only_cluster_role s).0 ≡ none
  pub binding_granted : (s : S) → IsCreated (api.create_binding read_only_cluster_role_binding s).0
  pub binding_there :
      (s : S) {e : ApiError}
      → (api.create_binding read_only_cluster_role_binding s).0 ≡ some e
      → is_already_exists e ≡ true
      → d.binding_of (api.create_binding read_only_cluster_role_binding s).1 ≢ none
  pub binding_update_granted :
      (s : S)
      → d.binding_of s ≢ none
      → IsUpdated (api.update_binding read_only_cluster_role_binding s).0
  pub binding_refused :
      (s : S) {e : ApiError}
      → (api.update_binding read_only_cluster_role_binding s).0 ≡ some e
      → d.binding_of (api.update_binding read_only_cluster_role_binding s).1 ≡ d.binding_of s
  pub binding_deleted :
      (s : S) → d.binding_of s ≢ none → (api.delete_binding read_only_sa_name s).0 ≡ none
  pub binding_gone :
      (s : S)
      → (api.delete_binding read_only_sa_name s).0 ≡ none
      → d.binding_of (api.delete_binding read_only_sa_name s).1 ≡ none
  pub binding_free :
      (s : S)
      → d.binding_of s ≡ none
      → (api.create_binding read_only_cluster_role_binding s).0 ≡ none

abbrev Succeeds : {S : Type 0} → Result (Unit {0}) × S → Type 0
Succeeds o = o.0 ≡ ok tt
