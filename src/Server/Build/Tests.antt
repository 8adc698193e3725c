-- ===== src/Server/Build/Tests.antt =====
-- Tests of the registered tools against a world that is a log of what is written to files and of what is
-- fetched for OpenStack.
use capo_shell_mcp.Prelude.{
  ℕ, ◌≡◌, ◌↔◌, inl, inr, refl, ◌∙◌, String, true, false, eq_iff, Option, none, some, List, [], ◌∷◌,
  In, Result, ok, ◌==◌, if◌then◌else◌,
}
use capo_shell_mcp.FanOut.{enumerate}
use capo_shell_mcp.FanOut.Laws.{IsSchedule}
use capo_shell_mcp.Server.Tools.{
  ListClustersEntry, KubeconfigResult, ClusterExecResult, get_cluster_kubeconfig_fan_out,
}
use capo_shell_mcp.Server.ReadOnly.Calls.{Issued, ReadOnlyCalls}
use capo_shell_mcp.Server.ReadOnly.Tools.{ShowsReadOnly, get_readonly-issued}
use capo_shell_mcp.Server.Fake.{logged, cfg, start}
use capo_shell_mcp.Server.Build.{for_exec, Mcp, exec_in_cluster}
use capo_shell_mcp.Server.Build.Laws.{
  IsMcp, KeepsAll, built, registered, build_server-find_iff, build_server-readonly,
}

-- No admin kubeconfig was written to a file, and no credentials were fetched.
abbrev IsClean : List String → Type 0
IsClean log = (¬ In "admin" log) × (¬ In "openstack" log)

Issued-text : (kc : String) → Issued logged kc → kc ≡ "read-only"
Issued-text kc (admin_kc, clients, n, x, y, from, h) = cc

differ : (t : String) → t ≡ "read-only" → (t == "read-only") ≡ false → ⊥
differ t e n = absurd (cc (n, (eq_iff t "read-only").1 e))

write-IsClean :
    (kc : String) (log : List String) → Issued logged kc → IsClean log → IsClean (kc ∷ log)
write-IsClean kc log i (a, o) = (
  λ h. elim h [ inl e ↦ differ "admin" (e ∙ Issued-text kc i) refl | inr r ↦ a r ],
  λ h. elim h [ inl e ↦ differ "openstack" (e ∙ Issued-text kc i) refl | inr r ↦ o r ],
)

logged-ReadOnlyCalls : ReadOnlyCalls logged IsClean
logged-ReadOnlyCalls = record {
  read_file = λ path x p. p;
  clients = λ src context x p. p;
  readonly_clients = λ kc x p. p;
  list = λ c name context fields x p. p;
  workload = λ c namespace name x p. p;
  info = λ c namespace name x p. p;
  issue = λ c kc n x p. p;
  proxy = λ ip port host ttl x p. p;
  random = λ x p. p;
  write = λ path kc x i p. write-IsClean kc x i p;
  remove = λ path x p. p;
  execute = λ command args path stdin x p. p;
}

abbrev in_order : List String → List (ℕ × String)
in_order = enumerate 0

in_order-IsSchedule : (ts : List String) → IsSchedule (in_order ts) ts
in_order-IsSchedule ts i t = (λ h. h, λ h. h)

abbrev marshal_entries : List ListClustersEntry → Result String
marshal_entries es = ok "[]"

abbrev marshal_kubeconfigs : List KubeconfigResult → Result String
marshal_kubeconfigs rs = ok "[]"

abbrev marshal_execs : List ClusterExecResult → Result String
marshal_execs rs = ok "[]"

-- A server is the list of its tools.
abbrev find : {H : Type 0} → String → List (String × H) → Option H
find n [] = none
find n ((m, h) ∷ rest) = if n == m then some h else find n rest

abbrev mcp : {H : Type 0} → Mcp (List (String × H)) H
mcp = record { new_server = λ name version text. []; add_tool = λ name text h v. (name, h) ∷ v }

mcp-IsMcp : {H : Type 0} → IsMcp (mcp {H = H}) find
mcp-IsMcp = record {
  finds_none = λ name version text n. refl;
  finds_added = λ name text h v n. refl;
}

build_server-find_iff_test :
    (find "exec_in_cluster" (
        built logged cfg marshal_entries marshal_kubeconfigs marshal_execs in_order mcp find
          mcp-IsMcp)
      ≡ some (
          for_exec (
            exec_in_cluster logged cfg marshal_entries marshal_kubeconfigs marshal_execs in_order)))
    ↔ In
        (
          "exec_in_cluster",
          for_exec (
              exec_in_cluster logged cfg marshal_entries marshal_kubeconfigs marshal_execs
                in_order),
        )
        (registered logged cfg marshal_entries marshal_kubeconfigs marshal_execs in_order mcp find
          mcp-IsMcp)
build_server-find_iff_test =
    build_server-find_iff logged cfg marshal_entries marshal_kubeconfigs marshal_execs in_order mcp
      find mcp-IsMcp "exec_in_cluster"
      (for_exec
        (exec_in_cluster logged cfg marshal_entries marshal_kubeconfigs marshal_execs in_order))

build_server-readonly_example : KeepsAll IsClean (
    find "exec_in_cluster_readonly" (
      built logged cfg marshal_entries marshal_kubeconfigs marshal_execs in_order mcp find
        mcp-IsMcp))
build_server-readonly_example =
    build_server-readonly logged cfg marshal_entries marshal_kubeconfigs marshal_execs in_order mcp
      find mcp-IsMcp IsClean logged-ReadOnlyCalls "exec_in_cluster_readonly" (inr refl)

get_readonly-issued_example :
    ShowsReadOnly logged marshal_kubeconfigs
      (get_cluster_kubeconfig_fan_out logged cfg marshal_entries marshal_kubeconfigs marshal_execs
        in_order
        ("prod/admin/ns/c1" ∷ [])
        true
        start).0
get_readonly-issued_example =
    get_readonly-issued logged cfg marshal_entries marshal_kubeconfigs marshal_execs in_order
      ("prod/admin/ns/c1" ∷ []) start in_order-IsSchedule
