-- ===== src/Server/Wiring/Tests.antt =====
-- Tests of the tool server with its parts.
use capo_shell_mcp.Prelude.{
  pos, String, ◌≡◌, ◌⊎◌, refl, true, none, some, [], ◌∷◌, Map, lookup, insert, trim_space, Result,
  ok, err, external,
}
use capo_shell_mcp.Cache.{get}
use capo_shell_mcp.Capi.Store.{Store, CachedKubeconfig, kubeconfig_key}
use capo_shell_mcp.Config.Value.{null}
use capo_shell_mcp.Config.Load.{AppConfig, KubeconfigSource}
use capo_shell_mcp.Shell.{Execer, other_error}
use capo_shell_mcp.Capi.Clients.{TypedClient}
use capo_shell_mcp.Capi.ReadOnly.Fake
use capo_shell_mcp.Proxy.Process.{Manager, new, stays_up}
use capo_shell_mcp.Proxy.Systemd.{unit_name, ensure_systemd_proxy, is_unit_active}
use capo_shell_mcp.Proxy.Systemd.Fake.{systemd, documented, running}
use capo_shell_mcp.Proxy.Dispatch.{ensure_proxy}
use capo_shell_mcp.Server.Outside.{State}
use capo_shell_mcp.Server.Kubeconfig.{cached_kubeconfig, reuse}
use capo_shell_mcp.Server.Kubeconfig.Laws.{read, stored}
use capo_shell_mcp.Server.Kubeconfig.Tunnel.{Tunnelled}
use capo_shell_mcp.Server.Wiring.{Machine, wired}
use capo_shell_mcp.Server.Wiring.Laws.{wired-Ensures, cached_kubeconfig-IsUp}

-- A machine with these commands and these clients.
abbrev machine_of :
    {S : Type 0} → Execer S → Result (TypedClient S) → Machine S String String String String
machine_of execer clients = record {
  now = λ s. pos 10;
  read_file = λ path s. (ok "kubeconfig", s);
  system = record {
    read_random = λ s. (ok (1 ∷ []), s);
    write_file = λ path contents s. (ok tt, s);
    remove = λ path s. s;
    environ = [];
    temp_dir = "/tmp";
  };
  execer = execer;
  clientcmd = record {
    load = λ content. ok content;
    context_names = λ raw. "admin" ∷ [];
    client_config = λ raw context. ok raw;
  };
  client_go = record {
    new_dynamic = λ rest_cfg. ok (record {
      list_clusters = λ s. (ok [], s);
      list_open_stack_clusters = λ namespace selector s. (ok [], s);
    });
    new_typed = λ rest_cfg. clients;
  };
  unstructured = record {
    nested_string = λ obj path. "";
    nested_string_slice = λ obj path. [];
    nested_field_no_copy = λ obj path. none;
  };
  jq = record {
    parse = λ q. ok q;
    compile = λ q. ok q;
    run = λ code v. some (ok v);
    quote = λ t. t;
  };
  unmarshal = λ t. ok null;
  marshal = λ v. ok "kubeconfig";
  unmarshal_clouds = λ t. ok [];
  unmarshal_clusters = λ t. ok (("https://workload", "ca") ∷ []);
  under_systemd = true;
  startup_of = λ args s. stays_up;
  others = λ gap m. new;
}

abbrev cfg : AppConfig
cfg = record {
  kubeconfigs = [];
  transforms = none;
  custom_fields = [];
  sshuttle_host = "";
  cache = record { cluster_list_ttl_seconds = pos 300; kubeconfig_ttl_seconds = pos 3600 };
}

abbrev prod : KubeconfigSource
prod = record { name = "prod"; path = "/prod"; contexts = "admin" ∷ []; sshuttle_host = "jump" }

abbrev cached : CachedKubeconfig
cached = record {
  kubeconfig = "apiVersion: v1";
  proxy_target =
      some
        (record { sshuttle_host = "jump"; api_server_ip = "10.0.0.1"; api_server_port = "6443" });
}

abbrev store : Store
store = record {
  cluster_list = record { ttl = pos 300; store = [] };
  kubeconfig = record {
    ttl = pos 3600;
    store = ("prod:admin:ns:c1", record { value = cached; expires_at = pos 3610 }) ∷ [];
  };
}

abbrev units : Machine (Map String) String String String String
units = machine_of systemd (err (external "refused"))

abbrev before : State (Manager × Map String)
before = record { store = store; outside = (new, running) }

cached_kubeconfig-IsUp_example :
    (c : CachedKubeconfig) × (c.kubeconfig ≡ "apiVersion: v1")
    × (((read (wired units) cfg prod "admin" "ns" "c1" before).0 ≡ some c)
        ⊎ ((u : State (Manager × Map String)) × (stored (wired units) cfg prod "admin" "ns" "c1" c u
              ≡ (cached_kubeconfig (wired units) cfg prod "admin" "ns" "c1" before).1)))
    × Tunnelled
        (wired units)
        cfg
        (wired-Ensures units documented refl)
        c.proxy_target
        (cached_kubeconfig (wired units) cfg prod "admin" "ns" "c1" before).1.outside
unfolding cached_kubeconfig wired reuse get kubeconfig_key lookup insert ensure_proxy
    ensure_systemd_proxy is_unit_active unit_name trim_space
cached_kubeconfig-IsUp_example =
    cached_kubeconfig-IsUp units documented refl cfg prod "admin" "ns" "c1" before refl

abbrev typed : TypedClient Fake.Cluster
typed = record {
  get_secret = Fake.clients.get_secret;
  rbac = Fake.clients.rbac;
  create_token = Fake.clients.create_token;
}

abbrev workload : Machine Fake.Cluster String String String String
workload = machine_of (λ command args options s. (other_error "no commands", s)) (ok typed)

abbrev rebound : State (Manager × Fake.Cluster)
rebound = record { store = store; outside = (new, Fake.rebound) }
