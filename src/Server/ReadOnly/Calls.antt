-- ===== src/Server/ReadOnly/Calls.antt =====
-- The calls that the read-only tools make of other packages, and what they leave as it was.
use capo_shell_mcp.Prelude.{ℤ, String, ◌≡◌, List, [], Map, ok}
use capo_shell_mcp.Config.Load.{KubeconfigSource}
use capo_shell_mcp.Exec.{exec_options}
use capo_shell_mcp.Server.Outside.{Outside}

-- A kubeconfig that CreateReadOnlyKubeconfig has given, with clients made of the kubeconfig it was given.
abbrev pub Issued : {X C : Type 0} → Outside X C → String → Type 0
Issued {X} {C} out kc =
    (admin_kc : String) × (clients : C) × (n : ℤ) × (x : X) × (y : X)
    × ((out.clients_from_readonly_source admin_kc x).0 ≡ ok clients)
    × ((out.create_read_only_kubeconfig clients admin_kc n y).0 ≡ ok kc)

-- Each of these calls keeps `P`. A file is only written with an issued kubeconfig, and a command is only
-- run in the environment of the daemon with KUBECONFIG added. There is nothing here about
-- `fetch_open_stack_env`.
pub record ReadOnlyCalls {X C : Type 0} (out : Outside X C) (P : X → Type 0) : Type 0 where
  pub read_file : (path : String) (x : X) → P x → P (out.read_file path x).1
  pub clients :
      (src : KubeconfigSource) (context : String) (x : X)
      → P x
      → P (out.clients_for_context src context x).1
  pub readonly_clients : (kc : String) (x : X) → P x → P (out.clients_from_readonly_source kc x).1
  pub list :
      (clients : C) (name context : String) (fields : Map String) (x : X)
      → P x
      → P (out.list_clusters_for_context clients name context fields x).1
  pub workload :
      (clients : C) (namespace name : String) (x : X)
      → P x
      → P (out.fetch_workload_kubeconfig clients namespace name x).1
  pub info :
      (clients : C) (namespace name : String) (x : X)
      → P x
      → P (out.fetch_api_server_info clients namespace name x).1
  pub issue :
      (clients : C) (kc : String) (n : ℤ) (x : X)
      → P x
      → P (out.create_read_only_kubeconfig clients kc n x).1
  pub proxy :
      (ip port host : String) (ttl : ℤ) (x : X) → P x → P (out.ensure_proxy ip port host ttl x).1
  pub random : (x : X) → P x → P (out.system.read_random x).1
  pub write :
      (path kc : String) (x : X) → Issued out kc → P x → P (out.system.write_file path kc x).1
  pub remove : (path : String) (x : X) → P x → P (out.system.remove path x)
  pub execute :
      (command : String) (args : List String) (path stdin : String) (x : X)
      → P x
      → P (out.execer command args (exec_options out.system path [] stdin) x).1
