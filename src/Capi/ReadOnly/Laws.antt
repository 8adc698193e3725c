-- ===== src/Capi/ReadOnly/Laws.antt =====
-- `EnsureReadOnlyRBAC` for an API that keeps its documented promises.
use capo_shell_mcp.Prelude.{
  String, ◌≡◌, refl, ◌∙◌, Bool, true, false, Option, none, some, Result, ok, err, if◌then◌else◌,
}
use capo_shell_mcp.Capi.ReadOnly.{
  ApiError, ClusterRole, ClusterRoleBinding, Api, check, done, is_already_exists,
  is_immutable_role_ref_error, read_only_sa_name, read_only_namespace, read_only_cluster_role,
  read_only_cluster_role_binding, recreate_binding, replace_binding, ensure_binding, ensure_role,
  ensure_read_only_rbac,
}

-- What a caller relies on: an object is there after a call that creates or updates it, or that
-- reports that it is there already, and calls on other objects leave it alone.
pub record Documented {S : Type 0} (api : Api S) : Type 1 where
  pub HasAccount : S → Type 0
  pub role_of : S → Option ClusterRole
  pub binding_of : S → Option ClusterRoleBinding
  pub account_created :
      (s : S)
      → (api.create_service_account read_only_namespace read_only_sa_name s).0 ≡ none
      → HasAccount (api.create_service_account read_only_namespace read_only_sa_name s).1
  pub account_there :
      (s : S) (e : ApiError)
      → (api.create_service_account read_only_namespace read_only_sa_name s).0 ≡ some e
      → is_already_exists e ≡ true
      → HasAccount (api.create_service_account read_only_namespace read_only_sa_name s).1
  pub role_created :
      (r : ClusterRole) (s : S)
      → (api.create_cluster_role r s).0 ≡ none
      → role_of (api.create_cluster_role r s).1 ≡ some r
  pub role_updated :
      (r : ClusterRole) (s : S)
      → (api.update_cluster_role r s).0 ≡ none
      → role_of (api.update_cluster_role r s).1 ≡ some r
  pub binding_created :
      (b : ClusterRoleBinding) (s : S)
      → (api.create_binding b s).0 ≡ none
      → binding_of (api.create_binding b s).1 ≡ some b
  pub binding_updated :
      (b : ClusterRoleBinding) (s : S)
      → (api.update_binding b s).0 ≡ none
      → binding_of (api.update_binding b s).1 ≡ some b
  pub create_role_keeps :
      (r : ClusterRole) (s : S) → HasAccount s → HasAccount (api.create_cluster_role r s).1
  pub update_role_keeps :
      (r : ClusterRole) (s : S) → HasAccount s → HasAccount (api.update_cluster_role r s).1
  pub create_binding_keeps :
      (b : ClusterRoleBinding) (s : S) → HasAccount s → HasAccount (api.create_binding b s).1
  pub update_binding_keeps :
      (b : ClusterRoleBinding) (s : S) → HasAccount s → HasAccount (api.update_binding b s).1
  pub delete_binding_keeps :
      (n : String) (s : S) → HasAccount s → HasAccount (api.delete_binding n s).1
  pub create_binding_role :
      (b : ClusterRoleBinding) (s : S) → role_of (api.create_binding b s).1 ≡ role_of s
  pub update_binding_role :
      (b : ClusterRoleBinding) (s : S) → role_of (api.update_binding b s).1 ≡ role_of s
  pub delete_binding_role : (n : String) (s : S) → role_of (api.delete_binding n s).1 ≡ role_of s

pub check-cases {ℓ} :
    {S : Type 0} {A : Type ℓ} (P : A → Type 0) (next : S → A) (failed : ApiError → S → A)
    (r : Option ApiError × S)
    → (r.0 ≡ none → P (next r.1))
    → ((e : ApiError) → r.0 ≡ some e → P (failed e r.1))
    → P (check next failed r)
check-cases P next failed (none, s) h k = h refl
check-cases P next failed (some e, s) h k = k e refl

pub if-cases {ℓ} :
    {A : Type ℓ} (P : A → Type 0) (b : Bool) (x y : A)
    → (b ≡ true → P x)
    → P y
    → P (if b then x else y)
if-cases P true x y h k = h refl
if-cases P false x y h k = k

module _ {S : Type 0} (api : Api S) (d : Documented api) where
  -- What is there after a success: the account, the role `r`, and the read-only binding.
  abbrev Bound : Option ClusterRole → Result (Unit {0}) × S → Type 0
  Bound r (ok _, s) =
      d.HasAccount s × (d.role_of s ≡ r) × (d.binding_of s ≡ some read_only_cluster_role_binding)
  Bound r (err _, s) = Unit

  recreate_binding-Bound :
      (r : Option ClusterRole) (s : S)
      → d.HasAccount s
      → d.role_of s ≡ r
      → Bound r (recreate_binding api s)
  unfolding recreate_binding
  recreate_binding-Bound r s h k =
      let s' : S = (api.delete_binding read_only_sa_name s).1 in
      let b = read_only_cluster_role_binding in
      check-cases (Bound r) _ _ (api.delete_binding read_only_sa_name s)
        (λ _.
          check-cases (Bound r) done _ (api.create_binding b s')
            (λ j. (
              d.create_binding_keeps b s' (d.delete_binding_keeps read_only_sa_name s h),
              d.create_binding_role b s' ∙ d.delete_binding_role read_only_sa_name s ∙ k,
              d.binding_created b s' j,
            ))
            (λ e j. tt))
        (λ e i. tt)

  replace_binding-Bound :
      (r : Option ClusterRole) (s : S)
      → d.HasAccount s
      → d.role_of s ≡ r
      → Bound r (replace_binding api s)
  unfolding replace_binding
  replace_binding-Bound r s h k =
      let b = read_only_cluster_role_binding in
      let s' : S = (api.update_binding b s).1 in
      let h' = d.update_binding_keeps b s h in
      let k' = d.update_binding_role b s ∙ k in
      check-cases (Bound r) done _ (api.update_binding b s) (λ i. (h', k', d.binding_updated b s i))
        (λ e i.
          if-cases (Bound r) (is_immutable_role_ref_error e) _ _
            (λ _. recreate_binding-Bound r s' h' k') tt)

  ensure_binding-Bound :
      (r : Option ClusterRole) (s : S)
      → d.HasAccount s
      → d.role_of s ≡ r
      → Bound r (ensure_binding api s)
  unfolding ensure_binding
  ensure_binding-Bound r s h k =
      let b = read_only_cluster_role_binding in
      let s' : S = (api.create_binding b s).1 in
      let h' = d.create_binding_keeps b s h in
      let k' = d.create_binding_role b s ∙ k in
      check-cases (Bound r) done _ (api.create_binding b s) (λ i. (h', k', d.binding_created b s i))
        (λ e i.
          if-cases (Bound r) (is_already_exists e) _ _ (λ _. replace_binding-Bound r s' h' k') tt)

  abbrev Ensured : Result (Unit {0}) × S → Type 0
  Ensured = Bound (some read_only_cluster_role)

  ensure_role-Bound : (s : S) → d.HasAccount s → Ensured (ensure_role api s)
  unfolding ensure_role
  ensure_role-Bound s h =
      let r = read_only_cluster_role in
      let s' : S = (api.create_cluster_role r s).1 in
      let h' = d.create_role_keeps r s h in
      check-cases Ensured _ _ (api.create_cluster_role r s)
        (λ i. ensure_binding-Bound (some r) s' h' (d.role_created r s i))
        (λ e i.
          if-cases Ensured (is_already_exists e) _ _
            (λ _.
              check-cases Ensured _ _ (api.update_cluster_role r s')
                (λ j.
                  ensure_binding-Bound (some r) (api.update_cluster_role r s').1
                    (d.update_role_keeps r s' h') (d.role_updated r s' j))
                (λ e' j. tt))
            tt)

  ensure_read_only_rbac-Bound : (s : S) → Ensured (ensure_read_only_rbac api s)
  unfolding ensure_read_only_rbac
  ensure_read_only_rbac-Bound s =
      let made = api.create_service_account read_only_namespace read_only_sa_name s in
      check-cases Ensured _ _ made (λ i. ensure_role-Bound made.1 (d.account_created s i))
        (λ e i.
          if-cases Ensured (is_already_exists e) _ _
            (λ x. ensure_role-Bound made.1 (d.account_there s e i x)) tt)

  Bound-ok :
      (r : Option ClusterRole) (o : Result (Unit {0}) × S)
      → Bound r o
      → o.0 ≡ ok tt
      → d.HasAccount o.1
        × (d.role_of o.1 ≡ r)
        × (d.binding_of o.1 ≡ some read_only_cluster_role_binding)
  Bound-ok r (ok _, s) h e = h
  Bound-ok r (err _, s) h e = cc

  -- For an API that keeps its documented promises: once `EnsureReadOnlyRBAC` returns no error, the
  -- service account is there, and the role and the binding are exactly the read-only ones, whatever
  -- was there before and whichever of the calls had to replace or recreate something.
  pub ensure_read_only_rbac_lem :
      (s : S)
      → (ensure_read_only_rbac api s).0 ≡ ok tt
      → d.HasAccount (ensure_read_only_rbac api s).1
        × (d.role_of (ensure_read_only_rbac api s).1 ≡ some read_only_cluster_role)
        × (d.binding_of (ensure_read_only_rbac api s).1 ≡ some read_only_cluster_role_binding)
  ensure_read_only_rbac_lem s h =
      Bound-ok (some read_only_cluster_role) (ensure_read_only_rbac api s)
        (ensure_read_only_rbac-Bound s) h
