-- ===== src/Server/Wiring.antt =====
-- The calls that the tool server makes of internal/capi, internal/proxy and internal/server/clients.go,
-- by their models. The state is that of the tunnels with that of the machine.
pub mod Laws
mod Tests
use capo_shell_mcp.Prelude.{
  ℕ, ℤ, String, ◌⊕◌, Bool, Option, List, Map, sort_names, Result, ok, ◌>>=◌,
}
use capo_shell_mcp.Action
use capo_shell_mcp.Action.{Action, lift}
use capo_shell_mcp.Config.Value.{Value}
use capo_shell_mcp.Config.Load.{KubeconfigSource}
use capo_shell_mcp.Shell.{Execer}
use capo_shell_mcp.Exec.{System}
use capo_shell_mcp.Capi.Clients.{Clients, Unstructured, Jq}
use capo_shell_mcp.Capi.Listing.{list_clusters_for_context}
use capo_shell_mcp.Capi.OpenStack.{Cloud, fetch_open_stack_env, fetch_api_server_info}
use capo_shell_mcp.Capi.Transform.{apply_kubeconfig_transform, fetch_workload_kubeconfig}
use capo_shell_mcp.Capi.ReadOnly.Kubeconfig.{create_read_only_kubeconfig}
use capo_shell_mcp.Proxy.Process.{Manager, Startup, Others}
use capo_shell_mcp.Proxy.Dispatch.{spawn_args, ensure_proxy}
use capo_shell_mcp.Capi.RestConfig.{Clientcmd, get_contexts}
use capo_shell_mcp.Server.Clients.{ClientGo, clients_from_kubeconfig_yaml, real_clients_for_context}
use capo_shell_mcp.Server.Outside.{Outside}

-- The operating system, and the libraries that the program calls.
pub record Machine (S Query Code Raw Rest : Type 0) : Type 0 where
  pub now : S → ℤ
  pub read_file : String → Action S String
  pub system : System S
  pub execer : Execer S
  pub clientcmd : Clientcmd Raw Rest
  pub client_go : ClientGo S Rest
  pub unstructured : Unstructured
  pub jq : Jq Query Code
  pub unmarshal : String → Result Value
  pub marshal : Value → Result String
  pub unmarshal_clouds : String → Result (Map Cloud)
  pub unmarshal_clusters : String → Result (List (String × String))
  pub under_systemd : Bool
  -- how a sshuttle process with these arguments would start
  pub startup_of : List String → S → Startup
  -- what other goroutines do with the tunnels between the steps of a call
  pub others : Others

-- A call that leaves the tunnels alone.
abbrev pub beside : {S A : Type 0} → Action S A → Action (Manager × S) A
beside m (mgr, s) = let (r, s') = m s in (r, (mgr, s'))

abbrev beside_system : {S : Type 0} → System S → System (Manager × S)
beside_system system = record {
  read_random = beside system.read_random;
  write_file = λ path contents. beside (system.write_file path contents);
  remove = λ path w. (w.0, system.remove path w.1);
  environ = system.environ;
  temp_dir = system.temp_dir;
}

abbrev beside_execer : {S : Type 0} → Execer S → Execer (Manager × S)
beside_execer execer file args options w =
    let (r, s') = execer file args options w.1 in (r, (w.0, s'))

module _ {S Query Code Raw Rest : Type 0} (machine : Machine S Query Code Raw Rest) where
  unfoldable pub wired : Outside (Manager × S) (Clients S)
  unfolding real_clients_for_context clients_from_kubeconfig_yaml get_contexts
      list_clusters_for_context fetch_workload_kubeconfig apply_kubeconfig_transform
      fetch_api_server_info fetch_open_stack_env create_read_only_kubeconfig ensure_proxy
  wired = record {
    now = λ w. machine.now w.1;
    read_file = λ path. beside (machine.read_file path);
    system = beside_system machine.system;
    execer = beside_execer machine.execer;
    clients_for_context = λ src context. beside (
        real_clients_for_context machine.clientcmd machine.client_go machine.read_file src context);
    clients_from_readonly_source =
        λ kc. beside (lift (clients_from_kubeconfig_yaml machine.clientcmd machine.client_go kc));
    get_contexts = get_contexts machine.clientcmd;
    list_clusters_for_context = λ clients kubeconfig_name context fields.
        beside (list_clusters_for_context machine.jq clients kubeconfig_name context fields);
    fetch_workload_kubeconfig =
        λ clients namespace name. beside (fetch_workload_kubeconfig clients namespace name);
    apply_kubeconfig_transform =
        apply_kubeconfig_transform machine.jq machine.unmarshal machine.marshal;
    fetch_api_server_info = λ clients namespace name.
        beside (fetch_api_server_info clients machine.unstructured namespace name);
    fetch_open_stack_env = λ clients namespace name.
        beside (
          fetch_open_stack_env clients machine.unstructured machine.unmarshal_clouds namespace
            name);
    create_read_only_kubeconfig = λ clients admin_kc n.
        beside (
          create_read_only_kubeconfig clients machine.unmarshal_clusters machine.marshal admin_kc
            n);
    ensure_proxy = λ ip port host ttl w.
        ensure_proxy machine.execer machine.others machine.under_systemd ip port host ttl
          (machine.startup_of (spawn_args host ip port) w.1) w;
  }
