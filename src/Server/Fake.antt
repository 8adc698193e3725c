-- ===== src/Server/Fake.antt =====
-- A world that is a log of what is written to files and of what is fetched for OpenStack, for tests.
use capo_shell_mcp.Prelude.{String, none, List, [], ◌∷◌, pos, ok}
use capo_shell_mcp.Config.Load.{AppConfig}
use capo_shell_mcp.Shell.{finished}
use capo_shell_mcp.Server.Outside.{Outside, State}

abbrev pub logged : Outside (List String) String
logged = record {
  now = λ x. pos 10;
  read_file = λ path x. (ok "kubeconfig", x);
  system = record {
    read_random = λ x. (ok (1 ∷ []), x);
    write_file = λ path contents x. (ok tt, contents ∷ x);
    remove = λ path x. x;
    environ = [];
    temp_dir = "/tmp";
  };
  execer = λ command args options x. (finished (record { stdout = "ok"; stderr = "" }), x);
  clients_for_context = λ src context x. (ok src.name, x);
  clients_from_readonly_source = λ kc x. (ok kc, x);
  get_contexts = λ content. ok ("admin" ∷ []);
  list_clusters_for_context = λ clients name context fields x. (ok [], x);
  fetch_workload_kubeconfig = λ clients namespace name x. (ok "admin", x);
  apply_kubeconfig_transform = λ kc t. ok kc;
  fetch_api_server_info = λ clients namespace name x. (ok none, x);
  fetch_open_stack_env = λ clients namespace name x. (ok [], "openstack" ∷ x);
  create_read_only_kubeconfig = λ clients kc n x. (ok "read-only", x);
  ensure_proxy = λ ip port host ttl x. (ok tt, x);
}

abbrev pub cfg : AppConfig
cfg = record {
  kubeconfigs =
      (
        "prod",
        record { name = "prod"; path = "/prod"; contexts = "admin" ∷ []; sshuttle_host = "" },
      )
      ∷ [];
  transforms = none;
  custom_fields = [];
  sshuttle_host = "";
  cache = record { cluster_list_ttl_seconds = pos 300; kubeconfig_ttl_seconds = pos 3600 };
}

abbrev pub start : State (List String)
start = record {
  store = record {
    cluster_list = record { ttl = pos 300; store = [] };
    kubeconfig = record { ttl = pos 3600; store = [] };
  };
  outside = [];
}
