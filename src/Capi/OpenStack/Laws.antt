-- ===== src/Capi/OpenStack/Laws.antt =====
-- Which variables `FetchOpenStackEnv` sets.
use capo_shell_mcp.Prelude.{
  String, ◌⊕◌, ◌≡◌, ◌≢◌, ◌⊎◌, inl, inr, refl, ap, subst, ◌∙◌, false, Bool-cases, Option,
  Option-cases, none, some, List, [], ◌∷◌, In, Map, lookup, lookup-insert, contains, contains_iff,
  NoDup, keys, Result, ok, err, arith, eq_iff, ◌==◌, if◌then◌else◌,
}
use capo_shell_mcp.Action.{pure, follow, follow-ok, follow-lift, noted, noted-ok, annotate}
use capo_shell_mcp.Capi.Clients.{Item, Clients, Unstructured}
use capo_shell_mcp.Capi.OpenStack.{
  Cloud, first, or_if_empty, found_item, clouds_text, cloud_named, fetch_open_stack_cluster,
  env_pairs, set_env, set_all, env_of, fetch_cloud, fetch_open_stack_env,
}

-- A variable with the value "" is not set; one that is not set keeps its value in `env`.
abbrev pub present : Option String → Option String → Option String
present none old = old
present (some v) old = if v == "" then old else some v

lookup-nil : (k : String) → lookup {V = String} k [] ≡ none
unfolding lookup
lookup-nil k = refl

lookup-missing : (k : String) (m : Map String) → contains k (keys m) ≡ false → lookup k m ≡ none
unfolding lookup contains
lookup-missing k [] h = refl
lookup-missing k ((j, v) ∷ m) h = ground (arith, lookup-missing k m)

lookup-set_all :
    (k : String) (pairs env : Map String)
    → NoDup (keys pairs)
    → lookup k (set_all pairs env) ≡ present (lookup k pairs) (lookup k env)
unfolding set_all lookup
lookup-set_all k [] env h = refl
lookup-set_all k ((j, v) ∷ pairs) env h = ground (
  arith,
  lookup-set_all k pairs (set_env j v env) h.1,
  lookup-insert j k v env,
  lookup-missing j pairs h.0,
  eq_iff j k,
  eq_iff v "",
)

env_pairs-NoDup : (cloud : Cloud) → NoDup (keys (env_pairs cloud))
unfolding contains
env_pairs-NoDup cloud = (
  refl,
  (
    refl,
    (refl, (refl, (refl, (refl, (refl, (refl, (refl, (refl, (refl, (refl, (refl, tt))))))))))),
  ),
)

env_of-lookup :
    (k : String) (cloud : Cloud)
    → lookup k (env_of cloud) ≡ present (lookup k (env_pairs cloud)) none
unfolding env_of
env_of-lookup k cloud =
    lookup-set_all k (env_pairs cloud) [] (env_pairs-NoDup cloud)
    ∙ ap (present (lookup k (env_pairs cloud))) (lookup-nil k)

-- A value that is not empty.
abbrev pub set_value : Option String → Option String
set_value none = none
set_value (some v) = if v == "" then none else some v

abbrev pub variable_names : List String
variable_names =
    "OS_AUTH_URL" ∷ "OS_USERNAME" ∷ "OS_PASSWORD" ∷ "OS_PROJECT_NAME" ∷ "OS_USER_DOMAIN_NAME"
    ∷ "OS_PROJECT_DOMAIN_NAME" ∷ "OS_REGION_NAME" ∷ "OS_CACERT" ∷ "OS_APPLICATION_CREDENTIAL_ID"
    ∷ "OS_APPLICATION_CREDENTIAL_SECRET" ∷ "OS_AUTH_TYPE" ∷ "OS_INTERFACE"
    ∷ "OS_IDENTITY_API_VERSION" ∷ []

-- The variables of a cloud, each with its field, and no other.
abbrev pub HasVariables : Cloud → Map String → Type 0
HasVariables cloud env =
    (lookup "OS_AUTH_URL" env ≡ set_value (lookup "auth_url" cloud.auth))
    × (lookup "OS_USERNAME" env ≡ set_value (lookup "username" cloud.auth))
    × (lookup "OS_PASSWORD" env ≡ set_value (lookup "password" cloud.auth))
    × (lookup "OS_PROJECT_NAME" env ≡ set_value (lookup "project_name" cloud.auth))
    × (lookup "OS_USER_DOMAIN_NAME" env ≡ set_value (lookup "user_domain_name" cloud.auth))
    × (lookup "OS_PROJECT_DOMAIN_NAME" env ≡ set_value (lookup "project_domain_name" cloud.auth))
    × (lookup "OS_REGION_NAME" env ≡ set_value (some cloud.region_name))
    × (lookup "OS_CACERT" env ≡ set_value (some cloud.cacert))
    × (lookup "OS_APPLICATION_CREDENTIAL_ID" env
        ≡ set_value (lookup "application_credential_id" cloud.auth))
    × (lookup "OS_APPLICATION_CREDENTIAL_SECRET" env
        ≡ set_value (lookup "application_credential_secret" cloud.auth))
    × (lookup "OS_AUTH_TYPE" env ≡ (
        if cloud.auth_type == ""
        then set_value (lookup "auth_type" cloud.auth)
        else some cloud.auth_type))
    × (lookup "OS_INTERFACE" env ≡ set_value (some cloud.interface))
    × (lookup "OS_IDENTITY_API_VERSION" env ≡ set_value (some cloud.identity_api_version))
    × ((k : String) → In k variable_names ⊎ (lookup k env ≡ none))

set_value-field :
    (o : Option String) → present (some (elim o [ none ↦ "" | some v ↦ v ])) none ≡ set_value o
set_value-field none = refl
set_value-field (some v) = refl

set_value-either :
    (a : String) (o : Option String)
    → present (some (if a == "" then (elim o [ none ↦ "" | some v ↦ v ]) else a)) none
      ≡ (if a == "" then set_value o else some a)
set_value-either a o = elim (Bool-cases (a == "")) [
  | inl e ↦ rw e (set_value-field o)
  | inr e ↦ rw (e, e) refl
]

env_of-HasVariables : (cloud : Cloud) → HasVariables cloud (env_of cloud)
unfolding lookup contains
env_of-HasVariables cloud = (
  env_of-lookup "OS_AUTH_URL" cloud ∙ set_value-field (lookup "auth_url" cloud.auth),
  env_of-lookup "OS_USERNAME" cloud ∙ set_value-field (lookup "username" cloud.auth),
  env_of-lookup "OS_PASSWORD" cloud ∙ set_value-field (lookup "password" cloud.auth),
  env_of-lookup "OS_PROJECT_NAME" cloud ∙ set_value-field (lookup "project_name" cloud.auth),
  env_of-lookup "OS_USER_DOMAIN_NAME" cloud
      ∙ set_value-field (lookup "user_domain_name" cloud.auth),
  env_of-lookup "OS_PROJECT_DOMAIN_NAME" cloud
      ∙ set_value-field (lookup "project_domain_name" cloud.auth),
  env_of-lookup "OS_REGION_NAME" cloud,
  env_of-lookup "OS_CACERT" cloud,
  env_of-lookup "OS_APPLICATION_CREDENTIAL_ID" cloud
      ∙ set_value-field (lookup "application_credential_id" cloud.auth),
  env_of-lookup "OS_APPLICATION_CREDENTIAL_SECRET" cloud
      ∙ set_value-field (lookup "application_credential_secret" cloud.auth),
  env_of-lookup "OS_AUTH_TYPE" cloud
      ∙ set_value-either cloud.auth_type (lookup "auth_type" cloud.auth),
  env_of-lookup "OS_INTERFACE" cloud,
  env_of-lookup "OS_IDENTITY_API_VERSION" cloud,
  λ k. elim (Bool-cases (contains k variable_names)) [
    | inl e ↦ inl ((contains_iff k variable_names).0 e)
    | inr e ↦
        inr
          (env_of-lookup k cloud ∙ ap (λ o. present o none) (lookup-missing k (env_pairs cloud) e))
  ],
)

-- Where the cloud is found: in the secret of the first OpenStackCluster of the cluster.
abbrev pub FoundCloud :
    {X : Type 0} (clients : Clients X)
    → Unstructured
    → (String → Result (Map Cloud))
    → String
    → String
    → X
    → X
    → Cloud
    → Type 0
FoundCloud {X} clients u unmarshal_clouds namespace cluster_name s s' cloud =
    (osc : Item) × (more : List Item) × (s1 : X) × (secret : Map String) × (raw : String)
    × (clouds : Map Cloud) × (clients.list_open_stack_clusters namespace
          ("cluster.x-k8s.io/cluster-name=" ⊕ cluster_name) s
        ≡ (ok (osc ∷ more), s1))
    × (clients.get_secret namespace
          (or_if_empty (u.nested_string osc.object ("spec" ∷ "identityRef" ∷ "name" ∷ []))
            (cluster_name ⊕ "-cloud-config"))
          s1
        ≡ (ok secret, s'))
    × (lookup "clouds.yaml" secret ≡ some raw)
    × (raw ≢ "")
    × (unmarshal_clouds raw ≡ ok clouds)
    × (lookup (or_if_empty (u.nested_string osc.object ("spec" ∷ "cloudName" ∷ [])) "openstack")
          clouds
        ≡ some cloud)

module _ {X : Type 0} (clients : Clients X) (u : Unstructured) where
  found_item-first :
      (namespace cluster_name : String) (items : List Item) {osc : Item}
      → found_item clients u namespace cluster_name (first items) ≡ ok osc
      → (more : List Item) × (items ≡ osc ∷ more)
  found_item-first namespace cluster_name [] h = cc
  found_item-first namespace cluster_name (x ∷ xs) h = (xs, cc)

  clouds_text-found :
      (name : String) (o : Option String) {raw : String}
      → clouds_text clients u name o ≡ ok raw
      → (o ≡ some raw) × (raw ≢ "")
  clouds_text-found name none h = cc
  clouds_text-found name (some v) {raw} h = elim (Bool-cases (v == "")) [
    | inl e ↦ absurd (cc (rw e at h))
    | inr e ↦
        (let same : ok v ≡ ok raw = rw e at h in
          let into : v ≡ raw = cc same in
          (ap some into, λ q. ground (arith, e, into, q, eq_iff v "")))
  ]

  cloud_named-found :
      (name : String) (clouds : Map Cloud) {cloud : Cloud}
      → cloud_named clients u name clouds ≡ ok cloud
      → lookup name clouds ≡ some cloud
  cloud_named-found name clouds h = elim (Option-cases (lookup name clouds)) [
    | inl n ↦ absurd (cc (rw (n, cloud_named) at h))
    | inr (c, i) ↦ i ∙ ap some (cc (rw (i, cloud_named) at h))
  ]

first_item :
    {X : Type 0} (r : Result (List Item) × X) {found : Option Item} {s' : X}
    → follow (λ items. pure (first items)) (noted "capi: listing OpenStackClusters" r.0, r.1)
      ≡ (ok found, s')
    → (items : List Item) × (r ≡ (ok items, s')) × (first items ≡ found)
first_item (ok items, t) h =
    (items, ap (λ w. (ok items, w)) (ap (λ x. x.1) h), cc (ap (λ x. x.0) h))
first_item (err e, t) h = absurd (cc (ap (λ x. x.0) h))

paired :
    {X A : Type 0} (prefix : String) (r : Result A × X) {a : A}
    → noted prefix r.0 ≡ ok a
    → r ≡ (ok a, r.1)
paired prefix (ok b, t) h = ap (λ x. (x, t)) h
paired prefix (err e, t) h = cc

module _ {X : Type 0} (clients : Clients X) (u : Unstructured)
    (unmarshal_clouds : String → Result (Map Cloud)) (namespace cluster_name : String) where
  -- The state in which the secret is asked for.
  abbrev listed : X → Result (List Item) × X
  listed s =
      clients.list_open_stack_clusters namespace ("cluster.x-k8s.io/cluster-name=" ⊕ cluster_name) s

  fetch_cloud-FoundCloud :
      (s : X) {cloud : Cloud} {s' : X}
      → fetch_cloud clients u unmarshal_clouds namespace cluster_name s ≡ (ok cloud, s')
      → FoundCloud clients u unmarshal_clouds namespace cluster_name s s' cloud
  unfolding fetch_cloud fetch_open_stack_cluster
  fetch_cloud-FoundCloud s {cloud} {s'} h =
      let (found, f, h1) =
        follow-ok _ (fetch_open_stack_cluster clients u namespace cluster_name s) h in
      let s1 : X = (fetch_open_stack_cluster clients u namespace cluster_name s).1 in
      let (items, i, f1) = first_item (listed s) {found = found} {s' = s1} (ap (λ r. (r, s1)) f) in
      let (osc, o, h2) = follow-ok _ (found_item clients u namespace cluster_name found, s1) h1 in
      let (more, m) =
        found_item-first clients u namespace cluster_name items
          (ap (found_item clients u namespace cluster_name) f1 ∙ o) in
      let secret_name =
        or_if_empty (u.nested_string osc.object ("spec" ∷ "identityRef" ∷ "name" ∷ []))
          (cluster_name ⊕ "-cloud-config") in
      let cloud_name =
        or_if_empty (u.nested_string osc.object ("spec" ∷ "cloudName" ∷ [])) "openstack" in
      let got : Result (Map String) × X = clients.get_secret namespace secret_name s1 in
      let (secret, g, h3) =
        follow-ok _
          (annotate ("capi: fetching secret " ⊕ (namespace ⊕ ("/" ⊕ secret_name)))
            (clients.get_secret namespace secret_name) s1)
          h2 in
      let (raw, r, h4) =
        follow-ok _ (clouds_text clients u secret_name (lookup "clouds.yaml" secret), got.1) h3 in
      let (text_found, some_text) = clouds_text-found clients u secret_name _ r in
      let (clouds, y, h5) =
        follow-ok _ (noted "capi: parsing clouds.yaml" (unmarshal_clouds raw), got.1) h4 in
      (
        osc,
        more,
        s1,
        secret,
        raw,
        clouds,
        i ∙ ap (λ l. (ok l, s1)) m,
        paired _ got g ∙ ap (λ w. (ok secret, w)) (ap (λ r. r.1) h5),
        text_found,
        some_text,
        noted-ok "capi: parsing clouds.yaml" (unmarshal_clouds raw) y,
        cloud_named-found clients u cloud_name clouds (ap (λ r. r.0) h5),
      )

-- When `FetchOpenStackEnv` succeeds, it gives the variables of the cloud that
-- spec.cloudName of the first OpenStackCluster names ("openstack" if it is empty), in the clouds.yaml of the
-- secret that spec.identityRef.name names (the name of the cluster with -cloud-config if it is empty): each of
-- the thirteen variables has the value of its field, is left out if that is empty, and there is no
-- other.
pub fetch_open_stack_env-lookup :
    {X : Type 0} (clients : Clients X) (u : Unstructured)
    (unmarshal_clouds : String → Result (Map Cloud)) (namespace cluster_name : String) (s : X)
    {env : Map String} {s' : X}
    → fetch_open_stack_env clients u unmarshal_clouds namespace cluster_name s ≡ (ok env, s')
    → (cloud : Cloud) × FoundCloud clients u unmarshal_clouds namespace cluster_name s s' cloud
      × HasVariables cloud env
unfolding fetch_open_stack_env
fetch_open_stack_env-lookup clients u unmarshal_clouds namespace cluster_name s h =
    let (cloud, fetched, same) =
      follow-lift (λ c. ok (env_of c))
        (fetch_cloud clients u unmarshal_clouds namespace cluster_name s) h in
    (
      cloud,
      fetch_cloud-FoundCloud clients u unmarshal_clouds namespace cluster_name s fetched,
      subst (HasVariables cloud) {x = env_of cloud} (cc same) (env_of-HasVariables cloud),
    )
