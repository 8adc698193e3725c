-- ===== src/Capi/ReadOnly/Fake.antt =====
-- A cluster that holds three objects at most, for tests.
use capo_shell_mcp.Prelude.{
  String, ◌≡◌, List, ◌∷◌, Result, ok, Bool, true, Option, none, some, [], if◌then◌else◌, ◌==◌,
  arith,
}
use capo_shell_mcp.Capi.ReadOnly.{
  already_exists, invalid, other, ClusterRole, ClusterRoleBinding, Api, read_only_sa_name,
}
use capo_shell_mcp.Capi.ReadOnly.Laws.{Documented}
use capo_shell_mcp.Capi.Clients.{Clients}
use capo_shell_mcp.Config.Value.{Value}

pub record Cluster : Type 0 where
  pub account : Bool
  pub role : Option ClusterRole
  pub binding : Option ClusterRoleBinding

abbrev pub api : Api Cluster
api = record {
  create_service_account = λ ns n s.
      if s.account
      then (some (already_exists "already exists"), s)
      else (none, record s { account = true });
  create_cluster_role = λ r s. elim s.role [
    | none ↦ (none, record s { role = some r })
    | some _ ↦ (some (already_exists "already exists"), s)
  ];
  update_cluster_role = λ r s. elim s.role [
    | none ↦ (some (other "not found"), s)
    | some _ ↦ (none, record s { role = some r })
  ];
  create_binding = λ b s. elim s.binding [
    | none ↦ (none, record s { binding = some b })
    | some _ ↦ (some (already_exists "already exists"), s)
  ];
  update_binding = λ b s. elim s.binding [
    | none ↦ (some (other "not found"), s)
    | some c ↦
        if c.role_ref.name == b.role_ref.name
        then (none, record s { binding = some b })
        else (some (invalid "roleRef: cannot change: immutable"), s)
  ];
  delete_binding = λ n s. elim s.binding [
    | none ↦ (some (other "not found"), s)
    | some _ ↦ (none, record s { binding = none })
  ];
}

abbrev pub documented : Documented api
documented = record {
  HasAccount = λ s. s.account ≡ true;
  role_of = λ s. s.role;
  binding_of = λ s. s.binding;
  account_created = λ s h. ground arith;
  account_there = λ s e h i. ground arith;
  role_created = λ r s h. ground arith;
  role_updated = λ r s h. ground arith;
  binding_created = λ b s h. ground arith;
  binding_updated = λ b s h. ground arith;
  create_role_keeps = λ r s h. ground arith;
  update_role_keeps = λ r s h. ground arith;
  create_binding_keeps = λ b s h. ground arith;
  update_binding_keeps = λ b s h. ground arith;
  delete_binding_keeps = λ n s h. ground arith;
  create_binding_role = λ b s. ground arith;
  update_binding_role = λ b s. ground arith;
  delete_binding_role = λ n s. ground arith;
}

-- A cluster in which somebody has bound the account to another role.
abbrev pub rebound : Cluster
rebound = record {
  account = true;
  role = some (record { name = read_only_sa_name; rules = [] });
  binding = some (record {
    name = read_only_sa_name;
    role_ref = record {
      api_group = "rbac.authorization.k8s.io";
      kind = "ClusterRole";
      name = "cluster-admin";
    };
    subjects = [];
  });
}

-- A kubeconfig is its server; the clusters that the admin kubeconfig names are fixed.
abbrev pub clients : Clients Cluster
clients = record {
  list_clusters = λ s. (ok [], s);
  list_open_stack_clusters = λ namespace selector s. (ok [], s);
  get_secret = λ namespace name s. (ok [], s);
  rbac = api;
  create_token = λ namespace name seconds s. (ok " token ", s);
}

abbrev pub one_cluster : String → Result (List (String × String))
one_cluster kc = ok (("https://workload", "ca") ∷ [])

abbrev pub render : Value → Result String
render v = ok "kubeconfig"
